-- ===== src/Process/Drain.antt =====
-- `drain` and `drain_sensitive` of both runners: read a stream to its end, at most `limit` bytes.
-- The stream is the list of what its reads return.
use homelab_mcp.Prelude.{
  ℕ, ◌+◌, ◌-◌, ◌≤◌, ◌≡◌, refl, Bool, true, false, List, [], ◌∷◌, ◌++◌, arith, ltb, leb, not, ◌&&◌,
  append-nil, if◌then◌else◌, length, length-append, append_assoc, Result, ok, err,
}

pub data Read : Type 0 where
  chunk : List ℕ → Read
  failed : Read

-- A read of no bytes ends the stream, and so does the end of the list.
unfoldable pub drain_from : List Read → ℕ → List ℕ → Result (Unit {0}) (List ℕ)
drain_from [] limit output = ok output
drain_from (failed ∷ reads) limit output = err tt
drain_from (chunk [] ∷ reads) limit output = ok output
drain_from (chunk (b ∷ bs) ∷ reads) limit output =
    let rest = drain_from reads limit (output ++ b ∷ bs) in
    if ltb (limit - length output) (length (b ∷ bs)) then err tt else rest

unfoldable pub drain : List Read → ℕ → Result (Unit {0}) (List ℕ)
unfolding drain_from
drain reads limit = drain_from reads limit []

-- What the stream holds up to its end, and whether it is read without a failure.
pub content : List Read → List ℕ
content [] = []
content (failed ∷ reads) = []
content (chunk [] ∷ reads) = []
content (chunk (b ∷ bs) ∷ reads) = b ∷ bs ++ content reads

pub fails : List Read → Bool
fails [] = false
fails (failed ∷ reads) = true
fails (chunk [] ∷ reads) = false
fails (chunk (b ∷ bs) ∷ reads) = fails reads

abbrev fits : ℕ → List Read → List ℕ → Bool
fits limit reads output = not (fails reads) && leb (length output + length (content reads)) limit

drain_from-eq :
    (reads : List Read) (limit : ℕ) (output : List ℕ)
    → length output ≤ limit
    → drain_from reads limit output
      ≡ (if fits limit reads output then ok (output ++ content reads) else err tt)
unfolding drain_from content fails
drain_from-eq [] limit output h = ground (arith, append-nil output)
drain_from-eq (failed ∷ reads) limit output h = refl
drain_from-eq (chunk [] ∷ reads) limit output h = ground (arith, append-nil output)
drain_from-eq (chunk (b ∷ bs) ∷ reads) limit output h = ground (
  arith,
  length-append output (b ∷ bs),
  length-append (b ∷ bs) (content reads),
  append_assoc output (b ∷ bs) (content reads),
  drain_from-eq reads limit (output ++ b ∷ bs),
)

-- A drain returns the whole content of the stream if no read fails and the content is within the
-- limit, and an error otherwise.
pub drain-eq :
    (reads : List Read) (limit : ℕ)
    → drain reads limit ≡ (
        if not (fails reads) && leb (length (content reads)) limit
        then ok (content reads)
        else err tt)
unfolding drain
drain-eq reads limit = ground (arith, drain_from-eq reads limit [])
