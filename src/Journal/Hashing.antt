-- ===== src/Journal/Hashing.antt =====
-- `Record::hash` of libs/journal/src/lib.rs over the hasher of libs/sha256.
use i3ml_os.Prelude.{ℕ, ◌≡◌, ap, ◌∙◌, sym, List, [], ◌∷◌, ◌++◌}
use mathlib.Core.List.{append-nil}
use i3ml_os.Journal.{Record, fields, hash}
use i3ml_os.Sha256.{hasher_new, update, finish, digest}
use i3ml_os.Sha256.Reference.{reference}
use i3ml_os.Sha256.Streaming.{streaming-reference, digest-reference}

unfoldable pub record_hash : List ℕ → Record → List ℕ
record_hash previous r = finish (update (fields r) (update previous hasher_new))

-- The link that `Record::hash` computes by two calls of the hasher is the SHA-256 of the previous link
-- followed by the fields: the journal's hash with the digest of libs/sha256.
pub record_hash-digest :
    (previous : List ℕ) (r : Record) → record_hash previous r ≡ hash digest previous r
unfolding record_hash
record_hash-digest previous r =
    streaming-reference (previous ∷ fields r ∷ [])
    ∙ sym (
        digest-reference (previous ++ fields r)
        ∙ ap (λ (t : List ℕ). reference (previous ++ t)) (sym (append-nil (fields r))))
