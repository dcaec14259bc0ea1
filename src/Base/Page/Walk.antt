-- ===== src/Base/Page/Walk.antt =====
-- Following `next` from page to page gives every row once, in order.
use latticeag_gateway.Base.{
  ℕ, zero, suc, ◌<◌, String, ◌≡◌, ◌≢◌, refl, inl, inr, Option, none, some, List, [], ◌∷◌, ◌++◌,
  arith, eq_iff, ltb, ◌=ₛ◌, length, take, drop, All, Bool-cases, ap, take_all, take-append-drop,
}
use latticeag_gateway.Base.Maybe.{◌>>=◌}
use latticeag_gateway.Base.Page.{rows_after, start_of, last_key, page_of}
use latticeag_gateway.Base.Table.Rows.{Distinct}

module _ {A : Type 0} (key : A → String) where
  -- The client that asks for the next page as long as there is one.
  unfoldable pub walk : ℕ → Option String → ℕ → List A → Option (List A)
  walk zero after limit rows = none
  walk (suc fuel) after limit rows = do
    page ← page_of key after limit rows
    elim page.1 [
      | none ↦ some page.0
      | some cursor ↦ do rest ← walk fuel (some cursor) limit rows; some (page.0 ++ rest)
    ]

  not-key :
      (c : String) (r : A) (rs xs : List A)
      → rows_after key c rs ≡ some xs
      → All (λ w. key r ≢ key w) rs
      → key r ≢ c
  unfolding rows_after
  not-key c r [] xs h a = λ e. cc
  not-key c r (w ∷ rs) xs h a = λ e. ground (arith, eq_iff (key w) c, not-key c r rs xs)

  rows_after-last_key :
      (n : ℕ) (rest : List A) (c : String)
      → Distinct key rest
      → n < length rest
      → last_key key (take (suc n) rest) ≡ some c
      → rows_after key c rest ≡ some (drop (suc n) rest)
  unfolding rows_after last_key
  rows_after-last_key n [] c d h e = elim h [ ]
  rows_after-last_key zero (r ∷ rs) c d h e = ground (arith, eq_iff (key r) c)
  rows_after-last_key (suc n) (r ∷ []) c d h e = absurd (omega arith)
  rows_after-last_key (suc n) (r ∷ q ∷ rs) c d h e =
      let ih = rows_after-last_key n (q ∷ rs) c d.1 (omega arith) e in
      let other = not-key c r (q ∷ rs) (drop (suc n) (q ∷ rs)) ih d.0 in
      ground (arith, eq_iff (key r) c, ih, other)

  last_key-some :
      (n : ℕ) (rest : List A)
      → n < length rest
      → (c : String) × (last_key key (take (suc n) rest) ≡ some c)
  unfolding last_key
  last_key-some n [] h = elim h [ ]
  last_key-some zero (r ∷ rs) h = (key r, refl)
  last_key-some (suc n) (r ∷ []) h = absurd (omega arith)
  last_key-some (suc n) (r ∷ q ∷ rs) h = last_key-some n (q ∷ rs) (omega arith)

  -- A cursor behind a cursor is behind the first list too.
  rows_after_trans :
      (a : String) (rows rest : List A) (c : String) (xs : List A)
      → Distinct key rows
      → rows_after key a rows ≡ some rest
      → rows_after key c rest ≡ some xs
      → rows_after key c rows ≡ some xs
  unfolding rows_after
  rows_after_trans a [] rest c xs d h e = cc
  rows_after_trans a (r ∷ rs) rest c xs d h e = elim (Bool-cases (key r =ₛ a)) [
    | inl same ↦
        let k : rows_after key c rs ≡ some xs = ground arith in
        ground (arith, eq_iff (key r) c, not-key c r rs xs k d.0)
    | inr differs ↦
        let k = rows_after_trans a rs rest c xs d.1 (ground arith) e in
        ground (arith, eq_iff (key r) c, k, not-key c r rs xs k d.0)
  ]

  Distinct-rows_after :
      (a : String) (rows rest : List A)
      → Distinct key rows
      → rows_after key a rows ≡ some rest
      → Distinct key rest × (length rest < length rows)
  unfolding rows_after
  Distinct-rows_after a [] rest d h = absurd (ground arith)
  Distinct-rows_after a (r ∷ rs) rest d h = elim (Bool-cases (key r =ₛ a)) [
    | inl same ↦ let e : rs ≡ rest = ground arith in rw (← e) (d.1, omega arith)
    | inr differs ↦
        let ih = Distinct-rows_after a rs rest d.1 (ground arith) in (ih.0, omega (arith, ih.1))
  ]

  rows_after_start :
      (after : Option String) (rows rest : List A) (c : String) (xs : List A)
      → Distinct key rows
      → start_of key after rows ≡ some rest
      → rows_after key c rest ≡ some xs
      → rows_after key c rows ≡ some xs
  rows_after_start none rows rest c xs d h e = ground arith
  rows_after_start (some a) rows rest c xs d h e = rows_after_trans a rows rest c xs d h e

  walk_from :
      (fuel : ℕ) (after : Option String) (limit : ℕ) (rows rest : List A)
      → Distinct key rows
      → Distinct key rest
      → start_of key after rows ≡ some rest
      → length rest < fuel
      → walk fuel after (suc limit) rows ≡ some rest
  unfolding walk page_of
  walk_from zero after limit rows rest d d' h f = absurd (omega arith)
  walk_from (suc fuel) after limit rows rest d d' h f =
      elim (Bool-cases (ltb (suc limit) (length rest))) [
        | inr last ↦ rw (h, last) (ap some (take_all (suc limit) rest (ground arith)))
        | inl more ↦
            let (c, e) = last_key-some limit rest (ground arith) in
            let behind = rows_after-last_key limit rest c d' (ground arith) e in
            let (d'', shorter) = Distinct-rows_after c rest (drop (suc limit) rest) d' behind in
            let ih =
              walk_from fuel (some c) limit rows (drop (suc limit) rest) d d''
                (rows_after_start after rows rest c (drop (suc limit) rest) d h behind)
                (omega arith) in
            rw (h, more) (rw (e, last_key) (rw ih (ap some (take-append-drop (suc limit) rest))))
      ]

  -- For rows with distinct ids and a limit of one or more, a client that follows `next` from the first
  -- page comes to the last page within one call more than there are rows, and has then got every row
  -- once, in order.
  pub walk_all :
      (limit : ℕ) (rows : List A)
      → Distinct key rows
      → walk (suc (length rows)) none (suc limit) rows ≡ some rows
  walk_all limit rows d = walk_from (suc (length rows)) none limit rows rows d d refl (omega arith)
