-- ===== src/Lib.antt =====
-- The C programs of the repository that run on both ends of a Spectranet: the capture-the-flag game
-- (its server examples/ctfgame/server; of its client the reader of messages, the sprites, the
-- panel, the lobby and the input box; and the client that only looks on,
-- examples/ctfgame/spectator), the tank game examples/tankgame, the HTTP library z88dk/libhttp, the
-- IRC client examples/irc, and the tape maker utils/bin2tape.c. The programs do not call each
-- other; the keyboard buffer, whose code two clients have in common, is modelled once.
--
-- The server of the capture-the-flag game is one process. A loop waits for a datagram or for the
-- end of a frame of 43 ms (`messageLoop`). A datagram is taken apart into messages, which add a
-- client, move it through matchmaking, start it or steer its tank. A frame moves the objects,
-- collides them, collects what each client has to see in a buffer of 256 bytes and sends the
-- buffers off. The parts share global arrays, so the model has one record `World` and every
-- operation is a function of it that returns nothing where the C code would dereference NULL or
-- leave an array: `M A` is World → Option (A × World). Objects stand in a heap by their address,
-- and the object list, the players and the callbacks hold addresses, so that two of them can name
-- the same object, as the code's pointers do. Players stand in their slots by value, since every
-- pointer to one goes through its slot; a message loop that keeps a pointer past a removal is told
-- apart by `PlayerRef`.
--
-- The clients of the game take the server's datagrams apart by one walk, which the player's game,
-- the lobby and the spectator give the sizes of the messages that they know; a walk that would read
-- on behind the received bytes is `none`. What a message does is a value: a deed of the reader, a
-- call of the sprite library, a shape or a text on the screen. The theorems on a client start where
-- it matters from the server's own functions that make and queue its messages. The spectator is
-- modelled from a datagram to the lines that are drawn, with the scale 1 that it starts with; its
-- matrices of rotation are whole numbers of thousandths, which the source names in decimals, and a
-- product of them is cut toward zero as the conversion to int does.
--
-- In the tank game each machine keeps the same array of 18 bytes; a turn is a step of each machine,
-- the exchange of the arrays, and the same judgement on both. The exchange is taken to hand over
-- the whole array. The HTTP library takes an address apart, writes a request into a buffer of 512
-- bytes, reads the headers of the answer and hands out its body; `malloc`, `strtol`, the network
-- and what base64enc leaves in its buffer are parameters. The IRC client loops over what the server
-- sends and the keys: a read is split into messages, each of which changes the nick or the channel,
-- is shown or is answered; what it shows and sends is a list of acts, and a read of a NULL pointer
-- is `none`. `strtok`, `strstr` and the like are written out on texts without their NUL as the C
-- library has them.
--
-- The files of all programs, and their sources:
--   Base             numbers, arrays, C's signed integers, byte strings and string functions
--   Keyboard         the circular buffer of examples/irc/inputline.c, which
--                    examples/ctfgame/client/mminput.c has too: isr, inputinit, the head of checkKey;
--                    Keyboard/Edit has the lemmas on a line of text that both input lines use
--   Tank             examples/tankgame/astg.c: read_keys, fire_bullet, procesa_juego,
--                    intercambia_info, procesa_resultado and the loop of run_game
--   Http/Uri         z88dk/libhttp: parseURI.c and parseproto.c
--   Http/Request     z88dk/libhttp: request.c, addFormData.c, postsize.c
--   Http/Data        z88dk/libhttp: htrecv.c, readData.c
--   Http/Headers     z88dk/libhttp: getSingleHeader and the second loop of getHeaders in
--                    readHeaders.c, getheader.c
--   Http/Answer      z88dk/libhttp: the first loop of getHeaders, and readHeaders
--   Irc/Input        examples/irc/inputline.c: resetinput, handleKey, checkKey
--   Irc/Client       what the parts of examples/irc share: output, sendIrcMsg, strtok
--   Irc/Server       examples/irc: extractIrcMessages of irc.c, ircsvrmsg.c
--   Irc/User         examples/irc/usercmd.c
--   Tape             utils/bin2tape.c; Tape/Load is a loader of the two formats
--   Spectator        examples/ctfgame/spectator, in the modules below it:
--     Reader         rxtx.c: the loop of getMessage over a datagram
--     Icons, Rotate  gfx.c: initIcons, makeGfxLine; the table of rotations and rotateGfxLines
--     Draw           gfx.c: colours, drawLineGfx, addText, showHealthBar, showTank, manageSprite,
--                    handlePlayerIdMsg
--     Notes          gfx.c: addScreenMsg, blitScreenMsgs
--     Scores         gfx.c: showScores, blitScores, showWinner, blitWinner, startGame
--     Map            map.c, and drawMapBox, drawMapIcon and drawViewportGrid of gfx.c
--     Screen         what getMessage of rxtx.c calls in gfx.c, over the state of both
--
-- The files of the capture-the-flag game, and the sources under examples/ctfgame that they are about:
--   Ctf/Msg, Limits  the ids and limits of common/ctfmessage.h and server/ctfserv.h
--   Ctf/Types        the structs of the same headers
--   Ctf/World        the globals of server/*.c, and the operations on them
--   Ctf/Buffer       the output buffers of server/ctfsocket.c: addMessage, sendMessage
--   Ctf/Clients      server/ctfsocket.c: addNewClient, findClient, removeClient, doPing; and the
--                    players of server/object.c: makeNewPlayer, removePlayer, startPlayer
--   Ctf/Receive      server/ctfsocket.c: getMessage and a round of messageLoop; setPlayerTeam
--   Ctf/Clock        server/ctfsocket.c: usecdiff
--   Ctf/Objects      server/object.c: the property table, addObject, deleteObject, newObject,
--                    createFlags, placeFlag, spawnPlayer; server/map.c: getSpawnpoint
--   Ctf/Physics      server/object.c: addVector, processPush, moveObject, shoveObject; and the
--                    steering of server/control.c
--   Ctf/Collide      server/object.c: collisionDetect, collidesWith
--   Ctf/Combat       server/object.c: fireWeapon, dealDamage, destroyPlayerObj
--   Ctf/Flags        server/object.c: flagCollision, flagCaptured; server/map.c:
--                    detectTouchingFlagpoint
--   Ctf/View         server/object.c: makeSpriteUpdates; server/map.c: sendMapMsg
--   Ctf/Frame        server/object.c: makeUpdates, doObjectUpdates, cleanObjects, resetGame
--   Ctf/Status       the scores and texts of server/object.c and server/bcastmsg.c
--   Ctf/Matchmake    server/matchmake.c
--   Ctf/Powerups     server/powerups.c
--   Ctf/Endgame      server/endgame.c
--   Ctf/MapTiles     server/map.c: detectMapCollision, processMapCmd; in
--                    Ctf/MapTiles/Load: loadMap, buildMapRow
--   Ctf/Server       server/ctfserv.c: main, over a history of events
--   Ctf/Client       client/rxtx.c: the walk of messageloop through a datagram
--   Ctf/Client/Sprites   client/sprites.c: sprtbl, putSprite, moveSprite, removeSprite, drawMap
--   Ctf/Client/Panel     client/print.c: setMsgArea, updateMsgArea, updateScoreboard, flagAlert and
--                    the flag indicator; client/gameover.c: gameOver, showResultPanel
--   Ctf/Client/Lobby     client/mmsocket.c: initConnection, sendSyncMsg, messageloop; client/mmui.c:
--                    displayMatchmake, setStartable, getMatchmakeInput
--   Ctf/Client/InputBox  client/mminput.c: resetinput and handleKey, with what they draw
--   Ctf/Keeps        invariants of operations, and the rules that compose them
--   Ctf/Sound        the well-formedness of the state and the proofs that the operations keep it
--   Ctf/Total        actions that never fault, and the rules that compose them: a greeting, the
--                    messages of a client that is choosing its team and the end of the choosing;
--                    and the slot of a client that arrives
--   Ctf/Tests        concrete runs
-- A component's properties stand in modules below it, named for what they prove.
--
-- What the server takes from its platform is the record `Env`: whether sendto succeeds, the values
-- of rand, whether the malloc whose result is tested succeeds, the integer part of a square root,
-- and the content of uninitialised bytes. The command line is the record `Config`, the loaded map
-- the record `GameMap`. A theorem that needs more of the platform says so in its hypotheses.
--
-- Loops over arrays are recursion on the array or on a range. The walk through a datagram has as
-- many rounds as there are bytes, since each message takes one. The walk over the rows of the map
-- has four rounds, and an object of two tiles touches three rows at most. The digits of a number
-- have as many rounds as the number itself. A poll of the HTTP library has the 250 rounds of its
-- timeout. The loop over the headers of an answer has a round for each header and one for the end;
-- a round takes 2 bytes at least of the 1400 of the buffer, as one of the loop that receives takes
-- 1. A `sendSyncMsg` has three rounds of 512 polls. The lines of the spectator's grid have as many
-- rounds as the screen has pixels, and each line takes one at least.
--
-- Not modelled: the menus, sounds and fades of the clients, the printing of their characters, which
-- is assembler, and the content of their panels; the spectator's window, its main loop and another
-- scale; the set-up of connections; the interrupt tables, which are assembler; what the HTTP
-- library frees; an interrupt between the parts of one look at the keyboard buffer; of the server
-- of the capture-the-flag game the console, the score file and the messages on them; the Spanish
-- texts; the calls of select, socket and bind; the lines that fgets makes of the map file; overflow
-- of the 32-bit int, which the scores and coordinates stay far from, but for usecdiff, whose int
-- wraps in the model; and a malloc that fails where the code does not test it.
pub mod Base
pub mod Ctf
pub mod Keyboard
pub mod Tank
pub mod Http
pub mod Irc
pub mod Tape
pub mod Spectator
