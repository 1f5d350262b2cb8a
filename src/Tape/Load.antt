-- ===== src/Tape/Load.antt =====
-- A loader for the two formats of tape files, and that it loads what bin2tape writes.
use spectranet.Base.{
  ℕ, zero, suc, ◌+◌, ◌-◌, ◌*◌, ◌/◌, ◌%◌, ◌<◌, ◌≡◌, refl, ap, sym, ◌∙◌, arith, Bool, true, false,
  ◌&&◌, Option, none, some, List, [], ◌∷◌, ◌++◌, length, length-append, take, drop, append_assoc,
  append-nil, take-append_length, ltb, ◌==◌, if◌then◌else◌,
}
use spectranet.Tape.Checksum.{get_checksum-closed}
use spectranet.Tape.{
  get_checksum, put16, header_fields, zx_header, tzx_block, tzx_signature, data_block, bin2tape,
}

-- A block by its length, if it is whole and its checksum is right: its bytes without the checksum,
-- and the rest of the file.
unfoldable pub block : List ℕ → Option (List ℕ × List ℕ)
unfolding get_checksum
block (lo ∷ (hi ∷ rest)) =
    let n = lo + 256 * hi in
    if ltb (length rest) n
    then none
    else if get_checksum (take n rest) == 0
    then some (take (n - 1) rest, drop n rest)
    else none
block (lo ∷ []) = none
block [] = none

-- A byte of a block, and a 16-bit field of it.
abbrev byte : List ℕ → ℕ → ℕ
byte [] i = 0
byte (c ∷ s) zero = c
byte (c ∷ s) (suc i) = byte s i

abbrev field : List ℕ → ℕ → ℕ
field s i = byte s i + 256 * byte s (i + 1)

-- The start address and the bytes of a CODE file: a header that names a size and a start address,
-- and a data block of that size.
unfoldable pub code_file : List ℕ → List ℕ → Option (ℕ × List ℕ)
code_file h d =
    if (length h == 18)
      && (byte h 0 == 0)
      && (byte h 1 == 3)
      && (byte d 0 == 255)
      && (length d == field h 12 + 1)
    then some (field h 14, drop 1 d)
    else none

abbrev with_data : List ℕ → Option (List ℕ × List ℕ) → Option (ℕ × List ℕ)
with_data h none = none
with_data h (some (d, rest)) = code_file h d

-- The block that stands next in a file: in a TZX file behind its kind and its pause.
abbrev next_block : Bool → List ℕ → Option (List ℕ × List ℕ)
next_block true s = block s
next_block false (k ∷ (p ∷ (q ∷ s))) = if k == 16 then block s else none
next_block false _ = none

abbrev with_header : Bool → Option (List ℕ × List ℕ) → Option (ℕ × List ℕ)
with_header istap none = none
with_header istap (some (h, rest)) = with_data h (next_block istap rest)

-- What is loaded from a file: a TZX file has a signature of 10 bytes.
unfoldable pub load : Bool → List ℕ → Option (ℕ × List ℕ)
unfolding block code_file
load true s = with_header true (next_block true s)
load false s = with_header false (next_block false (drop 10 s))

drop-append_length : (xs ys : List ℕ) → drop (length xs) (xs ++ ys) ≡ ys
drop-append_length [] ys = refl
drop-append_length (x ∷ xs) ys = drop-append_length xs ys

block_lem :
    (lo hi : ℕ) (s rest : List ℕ)
    → lo + 256 * hi ≡ length s + 1
    → block (lo ∷ hi ∷ ((s ++ (get_checksum s ∷ [])) ++ rest)) ≡ some (s, rest)
unfolding block
block_lem lo hi s rest h =
    let chk = get_checksum s ∷ [] in
    let whole = s ++ chk in
    let size = length-append s chk in
    let n : lo + 256 * hi ≡ length whole = omega arith in
    let total = length-append whole rest in
    let enough : ltb (length (whole ++ rest)) (length whole) ≡ false = ground arith in
    let one_less : length whole - 1 ≡ length s = omega arith in
    rw
      (
        block,
        n,
        enough,
        take-append_length whole rest,
        get_checksum-closed s,
        one_less,
        drop-append_length whole rest,
        append_assoc s chk rest,
        take-append_length s (chk ++ rest),
      )
      refl

abbrev pub load_output : Bool → Option (List ℕ) → Option (ℕ × List ℕ)
load_output istap none = none
load_output istap (some s) = load istap s

-- What is in front of the header, and between it and the data.
abbrev lead : Bool → List ℕ
lead istap = if istap then 0x13 ∷ 0x00 ∷ [] else tzx_signature ++ (tzx_block ++ (19 ∷ 0 ∷ []))

abbrev between : Bool → ℕ → List ℕ
between istap size = if istap then put16 (size + 2) else tzx_block ++ put16 (size + 2)

abbrev behind : Bool → List ℕ → List ℕ
behind istap file =
    between istap (length file) ++ ((255 ∷ file) ++ (get_checksum (255 ∷ file) ∷ []))

-- The file that is written, its checksums in place.
abbrev tape : Bool → ℕ → List ℕ → List ℕ
tape istap start file =
    let h = header_fields (length file) start in
    lead istap
    ++ ((h ++ (get_checksum h ∷ []))
        ++ (between istap (length file) ++ ((255 ∷ file) ++ (get_checksum (255 ∷ file) ∷ []))))

data_block_lem :
    (file : List ℕ)
    → length file < 65534
    → data_block (length file) file ≡ (255 ∷ file) ++ (get_checksum (255 ∷ file) ∷ [])
unfolding data_block
data_block_lem file h =
    let whole : (length file + 1) % 65536 ≡ suc (length file) = omega arith in
    ap (λ n. 255 ∷ (file ++ (get_checksum (take n (255 ∷ file)) ∷ []))) whole
    ∙ ap (λ l. 255 ∷ (file ++ (get_checksum (255 ∷ l) ∷ [])))
        (ap (take (length file)) (sym (append-nil file)) ∙ take-append_length file [])

bin2tape_lem :
    (malloc : ℕ → Bool) (istap : Bool) (start : ℕ) (file : List ℕ)
    → malloc (length file + 1) ≡ true
    → length file < 65534
    → start < 65536
    → bin2tape malloc istap start file ≡ some (tape istap start file)
unfolding bin2tape zx_header
bin2tape_lem malloc istap start file room short address =
    let size : length file % 65536 ≡ length file = omega arith in
    let fine : ltb 65535 start ≡ false = ground arith in
    let file_whole : take (length file) file ≡ file =
      ap (take (length file)) (sym (append-nil file)) ∙ take-append_length file [] in
    rw (bin2tape, size, fine, room, file_whole, data_block_lem file short) refl

code_file_lem :
    (start : ℕ) (file : List ℕ)
    → length file < 65534
    → start < 65536
    → code_file (header_fields (length file) start) (255 ∷ file) ≡ some (start, file)
unfolding code_file
code_file_lem start file short address =
    let size : (suc (length file) == length file % 256 + 256 * (length file / 256) + 1) ≡ true =
      ground arith in
    let begins : start % 256 + 256 * ((start / 256) % 256) ≡ start = omega arith in
    rw (code_file, size, begins) refl

data_read :
    (file : List ℕ)
    → length file < 65534
    → block (put16 (length file + 2) ++ ((255 ∷ file) ++ (get_checksum (255 ∷ file) ∷ [])))
      ≡ some (255 ∷ file, [])
data_read file short =
    let n = length file + 2 in
    let whole = (255 ∷ file) ++ (get_checksum (255 ∷ file) ∷ []) in
    ap (λ t. block (put16 n ++ t)) (sym (append-nil whole))
    ∙ block_lem ((n % 256) % 256) ((n / 256) % 256) (255 ∷ file) [] (omega arith)

-- What follows a header that was read.
follow :
    (istap : Bool) (start : ℕ) (file : List ℕ)
    → length file < 65534
    → start < 65536
    → with_header istap (
        some (
          header_fields (length file) start,
          between istap (length file) ++ ((255 ∷ file) ++ (get_checksum (255 ∷ file) ∷ [])),
        ))
      ≡ some (start, file)
follow true start file short address =
    ap (with_data (header_fields (length file) start)) (data_read file short)
    ∙ code_file_lem start file short address
follow false start file short address =
    ap (with_data (header_fields (length file) start)) (data_read file short)
    ∙ code_file_lem start file short address

load-tape :
    (istap : Bool) (start : ℕ) (file : List ℕ)
    → length file < 65534
    → start < 65536
    → load istap (tape istap start file) ≡ some (start, file)
unfolding load
load-tape true start file short address =
    ap (with_header true)
      (block_lem 19 0 (header_fields (length file) start) (behind true file) refl)
    ∙ follow true start file short address
load-tape false start file short address =
    ap (with_header false)
      (block_lem 19 0 (header_fields (length file) start) (behind false file) refl)
    ∙ follow false start file short address

-- What is written is loaded again, in both formats: from the tape file of a file of less than 65534
-- bytes and a start address of 16 bits, a loader that checks the lengths, the kinds and the checksums
-- of the blocks gets that address and those bytes, where `malloc` finds the space.
pub load-bin2tape :
    (malloc : ℕ → Bool) (istap : Bool) (start : ℕ) (file : List ℕ)
    → malloc (length file + 1) ≡ true
    → length file < 65534
    → start < 65536
    → load_output istap (bin2tape malloc istap start file) ≡ some (start, file)
load-bin2tape malloc istap start file room short address =
    ap (load_output istap) (bin2tape_lem malloc istap start file room short address)
    ∙ load-tape istap start file short address
