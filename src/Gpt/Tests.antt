-- ===== src/Gpt/Tests.antt =====
-- A disk of six sectors with a partition table in memory, and the theorems applied there.
use i3ml_os.Prelude.{
  ℕ, ◌%◌, ◌<◌, ◌≡◌, ◌≢◌, ◌⊎◌, ◌∙◌, sym, ap, subst, inl, inr, refl, some, none, ok, List, [], ◌∷◌,
  ◌++◌, replicate, get_elem?, length, All-get_elem?,
}
use mathlib.Core.Option.{some-injective}
use i3ml_os.Journal.Append.{IsSized}
use i3ml_os.Journal.Ram.{Ram, ram, ram-IsReadable}
use i3ml_os.Journal.Bytes.{to_le_bytes}
use i3ml_os.Gpt.{
  Header, header_in, find, find_in, find_header, parse_header, partition_in, scan, sum_entries,
  signature,
}
use i3ml_os.Gpt.Checksum.{crc_bit}
use i3ml_os.Gpt.Choice.{Chosen}
use i3ml_os.Gpt.Entries.{none_ne_some}
use i3ml_os.Gpt.Located.{Located, find-Located, find_returns}
use i3ml_os.Gpt.Window.{Partition}

abbrev wanted : List ℕ
wanted = 1 ∷ 2 ∷ 3 ∷ 4 ∷ 5 ∷ 6 ∷ 7 ∷ 8 ∷ 9 ∷ 10 ∷ 11 ∷ 12 ∷ 13 ∷ 14 ∷ 15 ∷ 16 ∷ []

abbrev entry : List ℕ
entry = wanted ++ (replicate 16 0 ++ (to_le_bytes 8 3 ++ (to_le_bytes 8 4 ++ replicate 80 0)))

abbrev header : List ℕ
header =
    signature
    ++ (replicate 4 0
        ++ (to_le_bytes 4 92
            ++ (to_le_bytes 4 1767535943
                ++ (replicate 52 0
                    ++ (to_le_bytes 8 2
                        ++ (to_le_bytes 4 1 ++ (to_le_bytes 4 128 ++ to_le_bytes 4 1666618310)))))))

abbrev blank : List ℕ
blank = replicate 512 0

abbrev disk : Ram
disk = record {
  sectors =
      blank ∷ (header ++ replicate 420 0) ∷ (entry ++ replicate 384 0) ∷ blank ∷ blank ∷ blank ∷ [];
  flushed = 0;
}

abbrev system : Partition
system = record { type_guid = wanted; first_lba = 3; last_lba = 4 }

found : (find ram wanted disk).0 ≡ some (ok system)
unfolding find find_in find_header parse_header partition_in scan sum_entries crc_bit
found = refl

disk-IsSized : IsSized ram disk
disk-IsSized sector bytes e =
    All-get_elem? (λ (b : List ℕ). length b ≡ 512) disk.sectors sector
      (refl, (refl, (refl, (refl, (refl, (refl, tt)))))) e

abbrev primary : Header
primary = record { entries_lba = 2; entry_count = 1; entry_size = 128; entries_crc = 1666618310 }

reads_primary : header_in (get_elem? disk.sectors 1) ≡ some primary
unfolding parse_header crc_bit
reads_primary = refl

size_of : {h : Header} → some primary ≡ some h → h.entry_size % 128 ≡ 0
size_of {h} e = subst (λ (x : Header). x.entry_size % 128 ≡ 0) (some-injective primary h e) refl

Chosen-whole : (h : Header) → Chosen ram 6 disk h → h.entry_size % 128 ≡ 0
Chosen-whole h c = placed c.place
  where
    parsed : header_in (get_elem? disk.sectors c.lba) ≡ some h
    parsed = ap header_in c.read ∙ c.parsed

    placed :
        (c.lba ≡ 1) ⊎ ((c.lba ≡ 5) × (1 < 6) × (header_in (get_elem? disk.sectors 1) ≡ none))
        → h.entry_size % 128 ≡ 0
    placed (inl first) = size_of (
        sym reads_primary
        ∙ (ap (λ (n : ℕ). header_in (get_elem? disk.sectors n)) (sym first) ∙ parsed))
    placed (inr (last, more, bad)) = absurd (none_ne_some (sym bad ∙ reads_primary))

find-Located_example : Located ram wanted disk system
find-Located_example = find-Located ram ram-IsReadable wanted disk disk-IsSized system found

find_returns_example : (find ram wanted disk).0 ≢ none
find_returns_example = find_returns ram ram-IsReadable wanted disk disk-IsSized Chosen-whole
