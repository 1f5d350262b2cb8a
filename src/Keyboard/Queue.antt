-- ===== src/Keyboard/Queue.antt =====
-- The keyboard buffer as a queue.
use spectranet.Base.{
  ℕ, zero, suc, ◌+◌, ◌-◌, ◌<◌, ◌≡◌, refl, ap, sym, ◌∙◌, arith, true, false, Bool-cases, inl, inr,
  some, List, [], ◌∷◌, ◌++◌, length, length-append, length-set, length-replicate, get_elem?,
  get_elem?-set_self, get_elem?-set_ne, get_elem?-lt, set, ltb, if◌then◌else◌, ◌==◌, ◌≢◌, ◌≤◌,
}
use spectranet.Keyboard.{
  Ring, inputinit, next, isr, idle, picked, pick, read_at, KeyEvent, pressed, looked, hand_out,
  after, keys_read,
}

-- A key joins the queue; the one that leaves no place free takes the whole queue with it.
unfoldable pub press : ℕ → ℕ → List ℕ → List ℕ
press size k q = if k == 0 then q else if length q + 1 == size then [] else q ++ (k ∷ [])

-- The keys that a queue hands out.
unfoldable pub keys_queued : ℕ → List KeyEvent → List ℕ → List ℕ
unfolding press
keys_queued size [] q = []
keys_queued size (pressed k ∷ es) q = keys_queued size es (press size k q)
keys_queued size (looked ∷ es) [] = keys_queued size es []
keys_queued size (looked ∷ es) (k ∷ q) = k ∷ keys_queued size es q

-- The place `i` steps on, for one round at most.
abbrev wrap : ℕ → ℕ → ℕ
wrap size i = if ltb i size then i else i - size

-- The ring holds the queue's keys from `readoffset` on, up to `bufoffset`.
pub record IsQueue (size : ℕ) (r : Ring) (q : List ℕ) : Type 0 where
  pub whole : length r.kbuf ≡ size
  pub reads : r.readoffset < size
  pub room : length q < size
  pub ends : r.bufoffset ≡ wrap size (r.readoffset + length q)
  pub holds :
      (j k : ℕ) → get_elem? q j ≡ some k → get_elem? r.kbuf (wrap size (r.readoffset + j)) ≡ some k

inputinit-IsQueue : (size : ℕ) → 0 < size → IsQueue size (inputinit size) []
unfolding inputinit
inputinit-IsQueue size h = record {
  whole = length-replicate size 0;
  reads = h;
  room = h;
  ends = ground arith;
  holds = λ j k e. cc;
}

next-wrap :
    (size i n : ℕ) → i < size → n < size → next size (wrap size (i + n)) ≡ wrap size (i + (n + 1))
next-wrap size i n h k = ground arith

apart : (size i j n : ℕ) → i < size → j < n → n < size → wrap size (i + n) ≢ wrap size (i + j)
apart size i j n h l k = λ e. ground arith

get-last :
    (q : List ℕ) (k j a : ℕ)
    → get_elem? (q ++ (k ∷ [])) j ≡ some a
    → j < length q
    → get_elem? q j ≡ some a
get-last [] k j a e h = let bad : 1 ≤ 0 = omega arith in elim bad [ ]
get-last (x ∷ q) k zero a e h = e
get-last (x ∷ q) k (suc j) a e h = get-last q k j a e (omega arith)

get-end : (q : List ℕ) (k j a : ℕ) → get_elem? (q ++ (k ∷ [])) j ≡ some a → j ≡ length q → k ≡ a
get-end [] k zero a e h = cc
get-end [] k (suc j) a e h = let bad : 1 ≤ 0 = omega arith in elim bad [ ]
get-end (x ∷ q) k zero a e h = let bad : 1 ≤ 0 = omega arith in elim bad [ ]
get-end (x ∷ q) k (suc j) a e h = get-end q k j a e (omega arith)

-- The ring after a key.
abbrev stored : ℕ → ℕ → Ring → Ring
stored size k r = record r { kbuf = set r.kbuf r.bufoffset k; bufoffset = next size r.bufoffset }

stored-ends :
    (size k : ℕ) (r : Ring) (q : List ℕ)
    → IsQueue size r q
    → next size r.bufoffset ≡ wrap size (r.readoffset + (length q + 1))
stored-ends size k r q i =
    ap (next size) i.ends ∙ next-wrap size r.readoffset (length q) i.reads i.room

-- With one key too many, the ring looks empty.
stored_over :
    (size k : ℕ) (r : Ring) (q : List ℕ)
    → IsQueue size r q
    → length q + 1 ≡ size
    → IsQueue size (stored size k r) []
stored_over size k r q i full =
    let reads = i.reads in
    let whole = i.whole in
    let ends = stored-ends size k r q i in
    record {
      whole = length-set r.kbuf r.bufoffset k ∙ whole;
      reads = reads;
      room = omega arith;
      ends = ends ∙ ground arith;
      holds = λ j a e. cc;
    }

stored-IsQueue :
    (size k : ℕ) (r : Ring) (q : List ℕ)
    → IsQueue size r q
    → length q + 1 < size
    → IsQueue size (stored size k r) (q ++ (k ∷ []))
stored-IsQueue size k r q i more =
    let long = length-append q (k ∷ []) in
    let reads = i.reads in
    let whole = i.whole in
    let room = i.room in
    let ends = i.ends in
    let place : r.bufoffset < length r.kbuf = ground arith in
    record {
      whole = length-set r.kbuf r.bufoffset k ∙ whole;
      reads = reads;
      room = omega arith;
      ends = stored-ends size k r q i ∙ ap (λ n. wrap size (r.readoffset + n)) (sym long);
      holds = λ j a e. elim (Bool-cases (ltb j (length q))) [
        | inl old ↦
            let below : j < length q = ground arith in
            get_elem?-set_ne r.kbuf k
              (λ same. apart size r.readoffset j (length q) reads below room (sym ends ∙ same))
            ∙ i.holds j a (get-last q k j a e below)
        | inr new ↦
            let bound = get_elem?-lt (q ++ (k ∷ [])) j e in
            let last : j ≡ length q = ground arith in
            ap (λ n. get_elem? (set r.kbuf r.bufoffset k) n)
              (ap (λ n. wrap size (r.readoffset + n)) last ∙ sym ends)
            ∙ get_elem?-set_self r.kbuf r.bufoffset k place
            ∙ ap some (get-end q k j a e last)
      ];
    }

isr-IsQueue :
    (size k : ℕ) (r : Ring) (q : List ℕ)
    → IsQueue size r q
    → IsQueue size (isr size k r) (press size k q)
unfolding isr press
isr-IsQueue size k r q i =
    let room = i.room in
    elim (Bool-cases (k == 0)) [
      | inl e ↦ rw e i
      | inr e ↦ elim (Bool-cases (length q + 1 == size)) [
        | inl full ↦ rw (e, full) (stored_over size k r q i (ground arith))
        | inr more ↦ rw (e, more) (stored-IsQueue size k r q i (ground arith))
      ]
    ]

pick_none : (size : ℕ) (r : Ring) → IsQueue size r [] → pick size r ≡ idle
unfolding pick
pick_none size r i =
    let reads = i.reads in
    let ends = i.ends in
    let same : (r.readoffset == r.bufoffset) ≡ true = ground arith in rw same refl

pick_first :
    (size k : ℕ) (r : Ring) (q : List ℕ)
    → IsQueue size r (k ∷ q)
    → pick size r ≡ picked k (record r { readoffset = next size r.readoffset })
unfolding pick
pick_first size k r q i =
    let reads = i.reads in
    let ends = i.ends in
    let room = i.room in
    let differ : (r.readoffset == r.bufoffset) ≡ false = ground arith in
    let first = i.holds 0 k refl in
    let here : wrap size (r.readoffset + 0) ≡ r.readoffset = ground arith in
    rw differ (ap (read_at size r) (ap (get_elem? r.kbuf) (sym here) ∙ first))

taken-IsQueue :
    (size k : ℕ) (r : Ring) (q : List ℕ)
    → IsQueue size r (k ∷ q)
    → IsQueue size (record r { readoffset = next size r.readoffset }) q
taken-IsQueue size k r q i =
    let reads = i.reads in
    let ends = i.ends in
    let room = i.room in
    record {
      whole = i.whole;
      reads = ground arith;
      room = omega arith;
      ends = ground arith;
      holds = λ j a e.
          let bound = get_elem?-lt q j e in
          let here : wrap size (next size r.readoffset + j) ≡ wrap size (r.readoffset + (j + 1)) =
            ground arith in
          let succ : suc j ≡ j + 1 = omega arith in
          ap (get_elem? r.kbuf) (here ∙ ap (λ n. wrap size (r.readoffset + n)) (sym succ))
          ∙ i.holds (suc j) a e;
    }

-- From a ring that holds a queue, the keys handed out are those of the queue.
keys_read-IsQueue :
    (size : ℕ) (es : List KeyEvent) (r : Ring) (q : List ℕ)
    → IsQueue size r q
    → keys_read size es r ≡ some (keys_queued size es q)
unfolding keys_read keys_queued
keys_read-IsQueue size [] r q i = refl
keys_read-IsQueue size (pressed k ∷ es) r q i =
    keys_read-IsQueue size es (isr size k r) (press size k q) (isr-IsQueue size k r q i)
keys_read-IsQueue size (looked ∷ es) r [] i =
    ap (after r (keys_read size es)) (pick_none size r i) ∙ keys_read-IsQueue size es r [] i
keys_read-IsQueue size (looked ∷ es) r (k ∷ q) i =
    ap (after r (keys_read size es)) (pick_first size k r q i)
    ∙ ap (hand_out k) (keys_read-IsQueue size es _ q (taken-IsQueue size k r q i))

-- Whatever the keys and the looks at the buffer, in every order: from `inputinit` on the buffer of
-- `size` bytes, one at least, hands out the keys as a queue does, oldest first, each once, and never
-- reads outside, but for the key that makes `size` of them unread: that one empties the queue.
pub keys_read-inputinit :
    (size : ℕ) (es : List KeyEvent)
    → 0 < size
    → keys_read size es (inputinit size) ≡ some (keys_queued size es [])
keys_read-inputinit size es some_size =
    keys_read-IsQueue size es (inputinit size) [] (inputinit-IsQueue size some_size)
