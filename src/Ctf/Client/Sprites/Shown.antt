-- ===== src/Ctf/Client/Sprites/Shown.antt =====
-- The objects that have a sprite, after any messages.
use spectranet.Base.{
  ℕ, zero, suc, ◌<◌, ◌≡◌, refl, ap, ◌∙◌, arith, true, false, Bool, Option, none, some, List, [],
  ◌∷◌, set, replicate, Gives, Gives-bind, Gives-weaken, ◌>>=◌,
}
use spectranet.Ctf.Sound.{All}
use spectranet.Ctf.Client.Sprites.{
  SpriteMsg, Sprites, init_sprite_lib, manage_sprite, remove_sprite,
}
use spectranet.Ctf.Client.Sprites.Table.{IsTable, deleted, live}
use spectranet.Ctf.Client.Sprites.Moves.{
  Fits, Leaves, present, manage_sprite-Leaves, remove_sprite-Leaves,
}

-- The messages of the server that are about sprites.
pub data Told : Type 0 where
  sprite : SpriteMsg → Told
  removed : ℕ → Told

-- The client on a sequence of messages.
unfoldable pub told : List Told → Sprites → Option Sprites
told [] t = some t
told (sprite m ∷ es) t = manage_sprite m t >>= told es
told (removed objid ∷ es) t = remove_sprite objid t >>= told es

-- Which objects the messages leave on the screen.
unfoldable pub on_screen : List Told → List Bool → List Bool
on_screen [] l = l
on_screen (sprite m ∷ es) l = on_screen es (set l m.objid true)
on_screen (removed objid ∷ es) l = on_screen es (set l objid false)

abbrev pub HasRoom : Told → Type 0
HasRoom (sprite m) = Fits m
HasRoom (removed objid) = objid < 48

abbrev Shows : List Bool → Sprites → Type 0
Shows l u = IsTable u × (present u.sprtbl ≡ l)

told-Shows :
    (es : List Told) (t : Sprites)
    → All HasRoom es
    → IsTable t
    → Gives (Shows (on_screen es (present t.sprtbl))) (told es t)
unfolding told on_screen
told-Shows [] t u i = (i, refl)
told-Shows (sprite m ∷ es) t (room, more) i =
    Gives-bind (Leaves t m.objid true) _ (manage_sprite m t) _ (manage_sprite-Leaves m t room i)
      (λ u (sound, e).
        Gives-weaken (Shows (on_screen es (present u.sprtbl))) _ (told es u)
          (λ v (w, shown). (w, shown ∙ ap (on_screen es) e)) (told-Shows es u more sound))
told-Shows (removed objid ∷ es) t (room, more) i =
    Gives-bind (Leaves t objid false) _ (remove_sprite objid t) _
      (remove_sprite-Leaves objid t room i)
      (λ u (sound, e).
        Gives-weaken (Shows (on_screen es (present u.sprtbl))) _ (told es u)
          (λ v (w, shown). (w, shown ∙ ap (on_screen es) e)) (told-Shows es u more sound))

present-none : (n : ℕ) → present (replicate n none) ≡ replicate n false
unfolding present
present-none zero = refl
present-none (suc n) = ap (λ l. false ∷ l) (present-none n)

init_sprite_lib-IsTable : IsTable init_sprite_lib
unfolding init_sprite_lib live deleted
init_sprite_lib-IsTable = record {
  size = refl;
  foton = record { place = refl; up = λ h. omega arith; down = λ h. cc };
  colour = omega arith;
  xplode = omega arith;
  balance = refl;
}

-- Whatever sprites the client is told of or told to remove, in every order, where each fits the
-- tables: it never reads or writes outside of them, an object has a sprite exactly if the last
-- message about it was one, every sprite that was made is in the table or was given back, and the
-- torpedoes' animation stays within its four frames.
pub told-init_sprite_lib :
    (es : List Told)
    → All HasRoom es
    → Gives
        (λ t. IsTable t × (present t.sprtbl ≡ on_screen es (replicate 48 false)))
        (told es init_sprite_lib)
unfolding init_sprite_lib
told-init_sprite_lib es room =
    Gives-weaken (Shows (on_screen es (present init_sprite_lib.sprtbl))) _ (told es init_sprite_lib)
      (λ t (sound, e). (sound, e ∙ ap (on_screen es) (present-none 48)))
      (told-Shows es init_sprite_lib room init_sprite_lib-IsTable)
