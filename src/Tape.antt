-- ===== src/Tape.antt =====
-- utils/bin2tape.c: a binary file as a tape file for the emulators and the Spectrum. The options and
-- the files of the command line are its arguments.
pub mod Checksum
pub mod Load
mod Tests
use Prim.Native.Nat.{bit_xor}
use spectranet.Base.{
  ℕ, ◌+◌, ◌/◌, ◌%◌, ◌^◌, Bool, Option, none, some, List, [], ◌∷◌, ◌++◌, length, take, codes, ltb,
  if◌then◌else◌,
}

abbrev pub checksum_from : ℕ → List ℕ → ℕ
checksum_from result [] = result
checksum_from result (c ∷ cs) = checksum_from (bit_xor result c) cs

-- `getChecksum` of the bytes from `buf` on.
unfoldable pub get_checksum : List ℕ → ℕ
get_checksum buf = checksum_from 0 buf

-- Two calls of `fputc`, the low byte first.
abbrev pub put16 : ℕ → List ℕ
put16 n = (n % 256) % 256 ∷ (n / 256) % 256 ∷ []

abbrev pub header_fields : ℕ → ℕ → List ℕ
header_fields size start =
    0
    ∷ 3
    ∷ (codes "data      "
        ++ (size % 256
            ∷ size / 256
            ∷ start % 256
            ∷ (start / 256) % 256
            ∷ start % 256
            ∷ (start / 256) % 256
            ∷ []))

-- The Spectrum's header with its checksum.
unfoldable pub zx_header : ℕ → ℕ → List ℕ
unfolding get_checksum
zx_header size start = let h = header_fields size start in h ++ (get_checksum h ∷ [])

-- The start of a block of a TZX file: its kind and a pause of 1000 ms.
abbrev pub tzx_block : List ℕ
tzx_block = 0x10 ∷ 0xE8 ∷ 0x03 ∷ []

abbrev pub tzx_signature : List ℕ
tzx_signature = codes "ZXTape!" ++ (0x1A ∷ 0x01 ∷ 0x14 ∷ [])

-- The data block after its length; the size that the checksum is taken of is 16 bits wide, too.
unfoldable pub data_block : ℕ → List ℕ → List ℕ
unfolding get_checksum
data_block size bytes =
    255 ∷ (bytes ++ (get_checksum (take ((size + 1) % 2 ^ 16) (255 ∷ bytes)) ∷ []))

-- What is written to the output file; `none` where the program stops with an error. `istap` is the
-- choice of the TAP format, and the file's size is cut to 16 bits.
unfoldable pub bin2tape : (ℕ → Bool) → Bool → ℕ → List ℕ → Option (List ℕ)
unfolding zx_header data_block
bin2tape malloc istap start file =
    let size = length file % 2 ^ 16 in
    let header =
      if istap then 0x13 ∷ 0x00 ∷ [] else tzx_signature ++ (tzx_block ++ (19 ∷ 0 ∷ [])) in
    let between = if istap then put16 (size + 2) else tzx_block ++ put16 (size + 2) in
    if ltb 65535 start
    then none
    else if malloc (size + 1)
    then some (header ++ (zx_header size start ++ (between ++ data_block size (take size file))))
    else none
