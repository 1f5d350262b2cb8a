-- ===== src/Irc/Server/Lines.antt =====
-- The messages of one read, and the tokens of a message.
use spectranet.Base.{
  ℕ, ◌≡◌, refl, ap, sym, ◌∙◌, arith, true, false, Bool-cases, inl, inr, some, List, [], ◌∷◌, ◌++◌,
  append_assoc, append-nil, Lacks, ◌==◌,
}
use spectranet.Irc.Client.{skip_delims, token, strtok}
use spectranet.Irc.Server.{extract_from, extract_irc_messages, before_cr}

-- Lines as the server sends them.
abbrev pub with_ends : List (List ℕ) → List ℕ
with_ends [] = []
with_ends (l ∷ ls) = l ++ (10 ∷ with_ends ls)

abbrev pub Plain : List (List ℕ) → Type 0
Plain [] = Unit {0}
Plain (l ∷ ls) = Lacks 0 l × Lacks 10 l × Plain ls

eq_comm : (a b : ℕ) → (a == b) ≡ false → (b == a) ≡ false
eq_comm a b e = ground arith

extract-line :
    (msg l more : List ℕ)
    → Lacks 0 l
    → Lacks 10 l
    → extract_from msg (l ++ (10 ∷ more)) ≡ (msg ++ l) ∷ extract_from [] more
unfolding extract_from
extract-line msg [] more z n = ap (λ m. m ∷ extract_from [] more) (sym (append-nil msg))
extract-line msg (c ∷ l) more z n =
    rw (extract_from, eq_comm 0 c z.0, eq_comm 10 c n.0)
      (extract-line (msg ++ (c ∷ [])) l more z.1 n.1
        ∙ ap (λ m. m ∷ extract_from [] more) (append_assoc msg (c ∷ []) l))

extract-tail : (msg l : List ℕ) → Lacks 10 l → extract_from msg l ≡ []
unfolding extract_from
extract-tail msg [] n = refl
extract-tail msg (c ∷ l) n = elim (Bool-cases (c == 0)) [
  | inl e ↦ rw (extract_from, e) refl
  | inr e ↦ rw (extract_from, e, eq_comm 10 c n.0) (extract-tail (msg ++ (c ∷ [])) l n.1)
]

-- Of one read, the lines that are complete come out as they were sent, each without its end, where
-- they have no byte 0; what stands behind the last end of a line is dropped.
pub extract_irc_messages-with_ends :
    (ls : List (List ℕ)) (tail : List ℕ)
    → Plain ls
    → Lacks 10 tail
    → extract_irc_messages (with_ends ls ++ tail) ≡ ls
unfolding extract_irc_messages
extract_irc_messages-with_ends [] tail p n = extract-tail [] tail n
extract_irc_messages-with_ends (l ∷ ls) tail p n =
    ap (extract_from []) (append_assoc l (10 ∷ with_ends ls) tail)
    ∙ extract-line [] l (with_ends ls ++ tail) p.0 p.1
    ∙ ap (λ m. l ∷ m) (extract_irc_messages-with_ends ls tail p.2 n)

token_lem : (d : ℕ) (w rest : List ℕ) → Lacks d w → token d (w ++ (d ∷ rest)) ≡ (w, rest)
unfolding token
token_lem d [] rest l = let same : (d == d) ≡ true = ground arith in rw (token, same) refl
token_lem d (c ∷ w) rest l = rw (token, eq_comm d c l.0, token_lem d w rest l.1) refl

-- A token that starts the text, up to its delimiter.
pub strtok_lem :
    (d c : ℕ) (w rest : List ℕ)
    → Lacks d (c ∷ w)
    → strtok d ((c ∷ w) ++ (d ∷ rest)) ≡ (some (c ∷ w), rest)
unfolding strtok skip_delims
strtok_lem d c w rest l = rw (strtok, skip_delims, eq_comm d c l.0, token_lem d (c ∷ w) rest l) refl

pub before_cr_lem : (s : List ℕ) → Lacks 13 s → before_cr s ≡ s
unfolding before_cr
before_cr_lem [] l = refl
before_cr_lem (c ∷ s) l = rw (before_cr, eq_comm 13 c l.0) (ap (λ t. c ∷ t) (before_cr_lem s l.1))
