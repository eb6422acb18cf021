-- ===== src/Journal/Tests.antt =====
-- Runs of the journal on a device in memory, and its theorems there.
use i3ml_os.Prelude.{
  ◌≤◌, err, ℕ, zero, suc, subst, ◌≡◌, ◌⊎◌, refl, Bool, true, ◌&&◌, and_true, ltb, ltb→lt, get_elem?,
  some, List, [], ◌∷◌, arith, length, replicate, ok, All,
}
use mathlib.Core.Option.{some-injective}
use i3ml_os.Journal
use i3ml_os.Journal.{
  Record, Superblock, Journal, Fault, create, append, open_journal, encode, decode, hash,
  superblock_encode, superblock_decode, record_new, read_journal,
}
use i3ml_os.Journal.Format.{IsRecord, IsDigest, decode-encode}
use i3ml_os.Journal.Chain.{Chained}
use i3ml_os.Journal.Hashing.{record_hash, record_hash-digest}
use i3ml_os.Sha256
use i3ml_os.Journal.Open.{Holds, genesis, Holds-open, open-Holds}
use i3ml_os.Journal.Tamper.{Clash, links, IsBytes, open_detects}
use i3ml_os.Journal.Stored.{IsByte, none_ne_some}
use i3ml_os.Journal.Growth.{append-Holds}
use i3ml_os.Journal.Read.{Holds-read}
use i3ml_os.Journal.Reopen.{Written, created, appended, Written-open}
use i3ml_os.Journal.Ram.{ram-IsWritable, Ram, ram, ram_new, ram-IsReadable, write_ram}

-- A digest that is easy to compute: the length of its input, 32 times.
abbrev toy : List ℕ → List ℕ
toy bytes = replicate 32 (length bytes)

toy-IsDigest : IsDigest toy
toy-IsDigest bytes = refl

abbrev granted : Record
granted = record {
  sequence = 1;
  at = 100;
  agent = 1;
  event = 4;
  detail = 300;
  label = 103 ∷ 111 ∷ replicate 38 0;
  label_length = 2;
}

granted-IsRecord : IsRecord granted
granted-IsRecord = record {
  sequence_fits = omega arith;
  at_fits = omega arith;
  agent_fits = omega arith;
  detail_fits = omega arith;
  label_sized = refl;
  label_length_fits = omega arith;
}

decode-encode_example :
    decode (encode toy genesis granted) ≡ some (granted, hash toy genesis granted)
decode-encode_example = decode-encode toy toy-IsDigest genesis granted granted-IsRecord

abbrev empty : Journal
empty = record { count = 0; tip = genesis; capacity = 8 }

abbrev formatted : Ram
formatted = record {
  sectors = superblock_encode (record { count = 0; tip = genesis }) ∷ replicate 2 (replicate 512 0);
  flushed = 0;
}

formatting : create ram (ram_new 3) ≡ (ok empty, formatted)
unfolding create Journal.write_superblock write_ram superblock_encode
formatting = refl

abbrev one : Journal
one = record { count = 1; tip = hash toy genesis granted; capacity = 8 }

abbrev recorded : Ram
recorded = (append ram toy empty granted formatted).2

recording : (append ram toy empty granted formatted).0 ≡ ok tt
unfolding append Journal.fetch Journal.write_superblock write_ram superblock_encode encode
recording = refl

recorded-Holds : Holds ram toy recorded one (granted ∷ [])
unfolding append Journal.fetch Journal.write_superblock Journal.read_record write_ram
    superblock_encode superblock_decode encode decode
recorded-Holds = record {
  sector = superblock_encode (record { count = 1; tip = one.tip });
  stands = refl;
  named = refl;
  counted = refl;
  ends = refl;
  sized = refl;
  room = omega arith;
  chain = (refl, tt);
}

Holds-open_example : (open_journal ram toy recorded).0 ≡ ok one
Holds-open_example = Holds-open ram toy ram-IsReadable recorded one (granted ∷ []) recorded-Holds

open-Holds_example : (rs : List Record) × Holds ram toy recorded one rs
open-Holds_example = open-Holds ram toy ram-IsReadable recorded one Holds-open_example

abbrev all_bytes : List ℕ → Bool
all_bytes [] = true
all_bytes (b ∷ bytes) = ltb b 256 && all_bytes bytes

bytes_are_bytes : (bytes : List ℕ) → all_bytes bytes ≡ true → All IsByte bytes
bytes_are_bytes [] h = tt
bytes_are_bytes (b ∷ bytes) h =
    let (head, tail) = and_true (ltb b 256) (all_bytes bytes) h in
    (ltb→lt b 256 head, bytes_are_bytes bytes tail)

sectors_are_bytes :
    (sectors : List (List ℕ))
    → All (λ bytes. all_bytes bytes ≡ true) sectors
    → (i : ℕ) (bytes : List ℕ) → get_elem? sectors i ≡ some bytes
    → All IsByte bytes
sectors_are_bytes [] h i bytes e = absurd (none_ne_some e)
sectors_are_bytes (x ∷ xs) (head, tail) zero bytes e =
    bytes_are_bytes bytes
      (subst (λ (b : List ℕ). all_bytes b ≡ true) (some-injective x bytes e) head)
sectors_are_bytes (x ∷ xs) (head, tail) (suc i) bytes e = sectors_are_bytes xs tail i bytes e

recorded-IsBytes : IsBytes ram toy toy-IsDigest recorded
unfolding append Journal.fetch Journal.write_superblock write_ram superblock_encode encode
recorded-IsBytes = sectors_are_bytes recorded.sectors (refl, (refl, (refl, tt)))

open_detects_example :
    Chained ram toy recorded 0 genesis (granted ∷ [])
    ⊎ ((ss : List Record) × Holds ram toy recorded one ss
        × Clash toy (links toy genesis (granted ∷ [])) (links toy genesis ss))
open_detects_example =
    open_detects ram toy toy-IsDigest recorded recorded one one (granted ∷ []) ram-IsReadable
      recorded-IsBytes recorded-IsBytes recorded-Holds Holds-open_example refl refl

three_blanks : All (λ (bytes : List ℕ). length bytes ≡ 512) (ram_new 3).sectors
three_blanks = (refl, (refl, (refl, tt)))

sectors_are_sized :
    (sectors : List (List ℕ))
    → All (λ (bytes : List ℕ). length bytes ≡ 512) sectors
    → (i : ℕ) (bytes : List ℕ) → get_elem? sectors i ≡ some bytes
    → length bytes ≡ 512
sectors_are_sized [] h i bytes e = absurd (none_ne_some e)
sectors_are_sized (x ∷ xs) (head, tail) zero bytes e =
    subst (λ (b : List ℕ). length b ≡ 512) (some-injective x bytes e) head
sectors_are_sized (x ∷ xs) (head, tail) (suc i) bytes e = sectors_are_sized xs tail i bytes e

one_record-Written : Written ram toy recorded one (granted ∷ [])
unfolding create append Journal.fetch Journal.write_superblock write_ram superblock_encode encode
one_record-Written =
    appended formatted empty [] granted
      (created (ram_new 3) empty (sectors_are_sized (ram_new 3).sectors three_blanks) refl)
      granted-IsRecord recording

Written-open_example :
    ((open_journal ram toy recorded).0 ≡ ok one) × Holds ram toy recorded one (granted ∷ [])
Written-open_example =
    Written-open ram toy ram-IsWritable ram-IsReadable toy-IsDigest recorded one (granted ∷ [])
      one_record-Written

formatted_sized :
    (i : ℕ) (bytes : List ℕ) → get_elem? formatted.sectors i ≡ some bytes → length bytes ≡ 512
unfolding superblock_encode
formatted_sized = sectors_are_sized formatted.sectors (refl, (refl, (refl, tt)))

formatted-Holds : Holds ram toy formatted empty []
unfolding superblock_encode superblock_decode
formatted-Holds = record {
  sector = superblock_encode (record { count = 0; tip = genesis });
  stands = refl;
  named = refl;
  counted = refl;
  ends = refl;
  sized = refl;
  room = omega arith;
  chain = tt;
}

append-Holds_example : Holds ram toy recorded one (granted ∷ [])
unfolding append Journal.fetch write_ram
append-Holds_example =
    append-Holds ram toy ram-IsReadable ram-IsWritable toy-IsDigest empty granted formatted
      formatted_sized granted-IsRecord [] formatted-Holds recording

Holds-read_example :
    ((r : Record)
      → get_elem? (granted ∷ []) 0 ≡ some r
      → (read_journal ram one 0 recorded).0 ≡ ok r)
    × (1 ≤ 0 → (read_journal ram one 0 recorded).0 ≡ err (Journal.chain_broken 0))
Holds-read_example = Holds-read ram toy recorded one (granted ∷ []) 0 recorded-Holds

record_hash-digest_example : record_hash genesis granted ≡ hash Sha256.digest genesis granted
record_hash-digest_example = record_hash-digest genesis granted
