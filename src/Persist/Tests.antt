-- ===== src/Persist/Tests.antt =====
-- A boot on a disk of eight sectors in memory, with the journal's partition in the sectors 3 to 5.
use i3ml_os.Prelude.{
  ℕ, ◌≡◌, inl, refl, some, ok, List, [], ◌∷◌, ◌++◌, arith, replicate, length, All-get_elem?,
}
use i3ml_os.Text.{literal}
use i3ml_os.Sijil
use i3ml_os.Sijil.{Entry, Event}
use i3ml_os.Journal.Chain.{peek}
use i3ml_os.Journal.Append.{IsSized}
use i3ml_os.Journal.Ram.{Ram, ram, ram-IsReadable, ram-IsWritable}
use i3ml_os.Journal.Bytes.{to_le_bytes}
use i3ml_os.Gpt.{
  find, find_in, find_header, parse_header, partition_in, scan, sum_entries, signature,
}
use i3ml_os.Gpt.Checksum.{crc_bit}
use i3ml_os.Gpt.Window.{Partition}
use i3ml_os.Persist.{disk, journal_partition, run}
use i3ml_os.Persist.Boot.{run-confined}

abbrev entry : List ℕ
entry =
    journal_partition
    ++ (replicate 16 0 ++ (to_le_bytes 8 3 ++ (to_le_bytes 8 5 ++ replicate 80 0)))

abbrev header : List ℕ
header =
    signature
    ++ (replicate 4 0
        ++ (to_le_bytes 4 92
            ++ (to_le_bytes 4 1655633126
                ++ (replicate 52 0
                    ++ (to_le_bytes 8 2
                        ++ (to_le_bytes 4 1 ++ (to_le_bytes 4 128 ++ to_le_bytes 4 1997252106)))))))

abbrev blank : List ℕ
blank = replicate 512 0

abbrev partitioned : Ram
partitioned = record {
  sectors =
      blank
      ∷ (header ++ replicate 420 0)
      ∷ (entry ++ replicate 384 0)
      ∷ blank
      ∷ blank
      ∷ blank
      ∷ blank
      ∷ blank
      ∷ [];
  flushed = 0;
}

abbrev reserved : Partition
reserved = record { type_guid = journal_partition; first_lba = 3; last_lba = 5 }

found : (find (disk ram) journal_partition partitioned).0 ≡ some (ok reserved)
unfolding find find_in find_header parse_header partition_in scan sum_entries crc_bit
found = refl

partitioned-IsSized : IsSized ram partitioned
partitioned-IsSized sector bytes e =
    All-get_elem? (λ (b : List ℕ). length b ≡ 512) partitioned.sectors sector
      (refl, (refl, (refl, (refl, (refl, (refl, (refl, (refl, tt)))))))) e

-- A digest that is easy to compute: the length of its input, 32 times.
abbrev lengths : List ℕ → List ℕ
lengths bytes = replicate 32 (length bytes)

abbrev noted : Entry
noted = record {
  sequence = 1;
  at = 7;
  agent = 1;
  event = Event.noted;
  detail = 0;
  label = Sijil.Label.new (literal "boot");
}

-- The first sector of the disk outlives the boot.
run-confined_example :
    peek ram 0 (run ram lengths ((noted, literal "boot") ∷ []) partitioned).1 ≡ some blank
run-confined_example =
    run-confined ram ram-IsReadable ram-IsWritable (λ sector d. refl) lengths
      ((noted, literal "boot") ∷ []) partitioned reserved partitioned-IsSized (omega arith) found 0
      (inl (omega arith))
