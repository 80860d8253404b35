-- ===== src/Review/Latest.antt =====
-- The loop that keeps the latest decision of each field, against a description of what it keeps.
pub mod Sorting
mod Turn
pub mod Exact
use sustentra_platform.Prelude.{Bool, not, ◌&&◌, ◌||◌, List, any, ltb, leb}
use sustentra_platform.Text.{Text, ◌==◌}
use sustentra_platform.Review.Aggregate.{Entry}
use sustentra_platform.Review.Evidence.{is_later}

module _ {N R : Type 0} where
  abbrev pub field : Entry N R → Text
  field e = e.decision.field_name

  -- A decision has a newer one on its field: of a later time, or of the same time and further on in the
  -- list.
  abbrev pub is_newer : Entry N R → Entry N R → Bool
  is_newer f e = ltb e.time f.time || (leb e.time f.time && ltb e.index f.index)

  abbrev pub has_newer : List (Entry N R) → Entry N R → Bool
  has_newer es e = any (λ f. field f == field e && is_newer f e) es

  -- The same in the terms of the loop.
  abbrev pub supersedes : Entry N R → Entry N R → Bool
  supersedes f e = field f == field e && is_later f e

  abbrev pub is_latest : List (Entry N R) → Entry N R → Bool
  is_latest es e = not (any (λ f. supersedes f e) es)
