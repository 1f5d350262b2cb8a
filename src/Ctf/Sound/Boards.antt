-- ===== src/Ctf/Sound/Boards.antt =====
-- The score board and status messages keep the state well formed.
use spectranet.Base.{ℕ, ℤ, List}
use spectranet.Ctf.World.{Act}
use spectranet.Ctf.Types.{Object, Player}
use spectranet.Ctf.Keeps.{keeps_rules}
use spectranet.Ctf.Keeps.{Keeps}
use spectranet.Ctf.Sound.{IsSound}
use spectranet.Ctf.Status
use spectranet.Ctf.Sound.Store.{
  get_player-Keeps, load_obj-Keeps, get_player-Keeps, the_player-Keeps,
}
use spectranet.Ctf.Sound.Messages.{post-Keeps, broadcast_status_msg-Keeps}
use spectranet.Ctf.Sound.Making.{is_player_object-Keeps}
use spectranet.Ctf.Sound.Store.{state_rules}

pub say-Keeps : (text : List ℕ) → Keeps IsSound (Status.say text)
unfolding Status.say
say-Keeps text = search (state_rules, broadcast_status_msg-Keeps) depth 40

pub owner_player-Keeps : (obj : Object) → Keeps IsSound (Status.owner_player obj)
unfolding Status.owner_player
owner_player-Keeps obj = search (state_rules, the_player-Keeps) depth 40

pub broadcast_flag_drop-Keeps : (p : Player) → Keeps IsSound (Status.broadcast_flag_drop p)
unfolding Status.broadcast_flag_drop
broadcast_flag_drop-Keeps p = search (state_rules, say-Keeps) depth 40

pub broadcast_crash-Keeps : (crasher : Object) → Keeps IsSound (Status.broadcast_crash crasher)
unfolding Status.broadcast_crash
broadcast_crash-Keeps crasher =
    search (state_rules, say-Keeps, owner_player-Keeps, broadcast_flag_drop-Keeps) depth 40

pub killer_of-Keeps : (o : Object) → Keeps IsSound (Status.killer_of o)
unfolding Status.killer_of
killer_of-Keeps o = search (state_rules, get_player-Keeps) depth 40

pub broadcast_death-Keeps :
    (killed : Object) (killed_by_addr : ℕ) (killed_by : Object)
    → Keeps IsSound (Status.broadcast_death killed killed_by_addr killed_by)
unfolding Status.broadcast_death
broadcast_death-Keeps killed killed_by_addr killed_by =
    search
      (
        state_rules, is_player_object-Keeps, say-Keeps, owner_player-Keeps,
        broadcast_flag_drop-Keeps, killer_of-Keeps,
      )
      depth 40

pub broadcast_flag_steal-Keeps :
    (stealer : Object) → Keeps IsSound (Status.broadcast_flag_steal stealer)
unfolding Status.broadcast_flag_steal
broadcast_flag_steal-Keeps stealer = search (state_rules, say-Keeps, owner_player-Keeps) depth 40

pub broadcast_flag_capture-Keeps :
    (capturer : Object) → Keeps IsSound (Status.broadcast_flag_capture capturer)
unfolding Status.broadcast_flag_capture
broadcast_flag_capture-Keeps capturer = search (state_rules, say-Keeps, owner_player-Keeps) depth 40

pub broadcast_flag_return-Keeps :
    (returner : Object) → Keeps IsSound (Status.broadcast_flag_return returner)
unfolding Status.broadcast_flag_return
broadcast_flag_return-Keeps returner = search (state_rules, say-Keeps, owner_player-Keeps) depth 40

pub broadcast_time_remaining-Keeps :
    (minutes : ℤ) → Keeps IsSound (Status.broadcast_time_remaining minutes)
unfolding Status.broadcast_time_remaining
broadcast_time_remaining-Keeps minutes = search (state_rules, say-Keeps) depth 40

pub post_number-Keeps :
    (i : ℕ) (numtype : ℕ) (n : ℤ) → Keeps IsSound (Status.post_number i numtype n)
unfolding Status.post_number
post_number-Keeps i numtype n = search (state_rules, post-Keeps) depth 40

pub add_ammo_msg-Keeps : (obj : Object) → Keeps IsSound (Status.add_ammo_msg obj)
unfolding Status.add_ammo_msg
add_ammo_msg-Keeps obj = search (state_rules, post_number-Keeps) depth 40

pub add_hitpoint_msg-Keeps : (obj : Object) → Keeps IsSound (Status.add_hitpoint_msg obj)
unfolding Status.add_hitpoint_msg
add_hitpoint_msg-Keeps obj = search (state_rules, post_number-Keeps) depth 40

pub add_player_score_msg-Keeps : (i : ℕ) → Keeps IsSound (Status.add_player_score_msg i)
unfolding Status.add_player_score_msg
add_player_score_msg-Keeps i = search (state_rules, the_player-Keeps, post_number-Keeps) depth 40

pub add_lives_msg-Keeps : (i : ℕ) → Keeps IsSound (Status.add_lives_msg i)
unfolding Status.add_lives_msg
add_lives_msg-Keeps i = search (state_rules, the_player-Keeps, post_number-Keeps) depth 40

pub team_score-Keeps : (team : ℕ) → Keeps IsSound (Status.team_score team)
unfolding Status.team_score
team_score-Keeps team = search state_rules depth 40

pub get_teamscore-Keeps : (team : ℕ) → Keeps IsSound (Status.get_teamscore team)
unfolding Status.get_teamscore
get_teamscore-Keeps team = search (state_rules, team_score-Keeps) depth 40

pub add_team_score_msg-Keeps : (i : ℕ) (team : ℕ) → Keeps IsSound (Status.add_team_score_msg i team)
unfolding Status.add_team_score_msg
add_team_score_msg-Keeps i team = search (state_rules, post_number-Keeps, team_score-Keeps) depth 40

pub for_players-Keeps :
    (body : ℕ → Player → Act)
    → ((i : ℕ) (p : Player) → Keeps IsSound (body i p))
    → Keeps IsSound (Status.for_players body)
unfolding Status.for_players
for_players-Keeps body k = search (keeps_rules, get_player-Keeps) depth 40

pub broadcast_team_score_msg-Keeps :
    (team : ℕ) → Keeps IsSound (Status.broadcast_team_score_msg team)
unfolding Status.broadcast_team_score_msg
broadcast_team_score_msg-Keeps team =
    search (state_rules, for_players-Keeps, post_number-Keeps, team_score-Keeps) depth 40

pub cancel_flag_indicators-Keeps : (team : ℕ) → Keeps IsSound (Status.cancel_flag_indicators team)
unfolding Status.cancel_flag_indicators
cancel_flag_indicators-Keeps team = search (state_rules, post-Keeps, for_players-Keeps) depth 40

pub update_flag_indicators-Keeps :
    (i : ℕ) (p : Player) → Keeps IsSound (Status.update_flag_indicators i p)
unfolding Status.update_flag_indicators
update_flag_indicators-Keeps i p = search (state_rules, load_obj-Keeps, post-Keeps) depth 40

pub update_all_flag_indicators-Keeps : Keeps IsSound Status.update_all_flag_indicators
unfolding Status.update_all_flag_indicators
update_all_flag_indicators-Keeps =
    search (state_rules, for_players-Keeps, update_flag_indicators-Keeps) depth 40

pub update_scoreboard-Keeps : (obj : Object) → Keeps IsSound (Status.update_scoreboard obj)
unfolding Status.update_scoreboard
update_scoreboard-Keeps obj =
    search
      (
        state_rules, add_ammo_msg-Keeps, add_hitpoint_msg-Keeps, add_player_score_msg-Keeps,
        add_lives_msg-Keeps, add_team_score_msg-Keeps,
      )
      depth 40

pub update_spectator_scoreboard-Keeps : Keeps IsSound Status.update_spectator_scoreboard
unfolding Status.update_spectator_scoreboard
update_spectator_scoreboard-Keeps =
    search (state_rules, post-Keeps, for_players-Keeps, team_score-Keeps) depth 40
