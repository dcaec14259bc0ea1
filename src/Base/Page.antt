-- ===== src/Base/Page.antt =====
-- The pages of approval.list and agent.list: `after` is the id of the last row of the page before,
-- and `next` is null on the last page.
pub mod Walk
use latticeag_gateway.Base.{
  ℕ, String, Option, none, some, List, [], ◌∷◌, ◌=ₛ◌, ltb, if◌then◌else◌, length, take,
}
use latticeag_gateway.Base.Maybe.{◌>>=◌}

module _ {A : Type 0} (key : A → String) where
  -- The rows behind the first one with the id; none where no row has it.
  unfoldable pub rows_after : String → List A → Option (List A)
  rows_after cursor [] = none
  rows_after cursor (r ∷ rs) = if key r =ₛ cursor then some rs else rows_after cursor rs

  abbrev pub start_of : Option String → List A → Option (List A)
  start_of none rs = some rs
  start_of (some cursor) rs = rows_after cursor rs

  -- `page[page.length - 1]!.id`
  unfoldable pub last_key : List A → Option String
  last_key [] = none
  last_key (r ∷ rs) = elim rs [ [] ↦ some (key r) | q ∷ qs ↦ last_key rs ]

  unfoldable pub page_of : Option String → ℕ → List A → Option (List A × Option String)
  unfolding rows_after last_key
  page_of after limit rows = do
    rest ← start_of after rows
    let page = take limit rest
    some (page, if ltb limit (length rest) then last_key page else none)
