-- ===== src/Core/Pagination/Pages.antt =====
-- One page of a sorted listing, and where the next page begins.
use lakefs_auth.Common.{
  ℕ, zero, suc, ◌≡◌, refl, ◌∙◌, Bool, true, false, none, some, List, [], ◌∷◌, map, Ordering, length,
  take, drop, filter, get_last?, take-take-suc, length-take, take-whole, ltb, arith, if◌then◌else◌,
  inl, inr, Bool-cases,
}
use lakefs_auth.Common.Int.{pos, ◌≤ℤ◌}
use lakefs_auth.Std.Order.{Text, text_ord, cmp_text, ◌<?◌}
use lakefs_auth.Std.BTreeMap.{BTreeMap, Above, IsSorted}
use lakefs_auth.Core.Pagination.{
  PaginationParams, PageQuery, PageOf, normalize, max_page, in_page, page_sorted, from_overfetch,
  map_page, fetch_limit, usize_or_max,
}
use mathlib.Core.Option

-- Whatever the parameters, the limit of a page lies between 1 and the maximum.
normalize_bounds :
    (p : PaginationParams) → (pos 1 ≤ℤ (normalize p).limit) × ((normalize p).limit ≤ℤ max_page)
unfolding normalize
normalize_bounds p = ground arith

abbrev pub query_of : Text → Text → ℕ → PageQuery
query_of prefix after n = record { prefix = prefix; after = after; limit = pos n }

fetch_limit_of :
    (prefix after : Text) (n : ℕ) → usize_or_max (fetch_limit (query_of prefix after n)) ≡ suc n
unfolding fetch_limit
fetch_limit_of prefix after n = ground arith

module _ {ℓ} {T : Type ℓ} where
  -- The rows that a query selects, on this page and on the later ones.
  abbrev pub selected : Text → Text → List (Text × T) → List (Text × T)
  selected prefix after = filter (in_page prefix after)

  unfoldable pub page_of : ℕ → List (Text × T) → PageOf T
  page_of n rows = record {
    items = map (λ r. r.1) (take n rows);
    next_offset =
        if ltb n (length rows) then Option.map (λ r. r.0) (get_last? (take n rows)) else none;
  }

  overfetch-page_of :
      (n : ℕ) (rows : List (Text × T))
      → map_page (λ r. r.1) (from_overfetch (take (suc n) rows) (pos n) (λ r. r.0)) ≡ page_of n rows
  unfolding from_overfetch map_page page_of
  overfetch-page_of n rows = elim (Bool-cases (ltb n (length rows))) [
    | inl more ↦
        let e : ltb n (length (take (suc n) rows)) ≡ true =
          ground (arith, length-take (suc n) rows) in
        rw (e, more, take-take-suc)
    | inr rest ↦
        let e : ltb n (length (take (suc n) rows)) ≡ false =
          ground (arith, length-take (suc n) rows) in
        rw (e, rest)
          (rw (take-whole rows (suc n) (ground arith)) (rw (take-whole rows n (ground arith))))
  ]

  page_sorted_steps :
      (q : PageQuery) (sorted : List (Text × T))
      → page_sorted sorted q
        ≡ map_page
            (λ r. r.1)
            (from_overfetch
              (take (usize_or_max (fetch_limit q)) (selected q.prefix q.after sorted))
              q.limit
              (λ r. r.0))
  unfolding page_sorted
  page_sorted_steps q sorted = refl

  -- A page holds the first rows that the prefix and the cursor select, up to the limit. There is a
  -- cursor exactly when the page has a row and more rows are selected, and it is the key of the page's
  -- last row.
  pub page_sorted-page_of :
      (prefix after : Text) (n : ℕ) (sorted : List (Text × T))
      → page_sorted sorted (query_of prefix after n) ≡ page_of n (selected prefix after sorted)
  page_sorted-page_of prefix after n sorted =
      page_sorted_steps (query_of prefix after n) sorted
      ∙ rw fetch_limit_of (overfetch-page_of n (selected prefix after sorted))

  Above-filter :
      (p : Text × T → Bool) (k : Text) (m : BTreeMap Text T) → Above k m → Above k (filter p m)
  Above-filter p k [] a = tt
  Above-filter p k (r ∷ m) a = ground (arith, Above-filter p k m)

  filter-IsSorted : (p : Text × T → Bool) (m : BTreeMap Text T) → IsSorted m → IsSorted (filter p m)
  filter-IsSorted p [] s = tt
  filter-IsSorted p (r ∷ m) s = ground (arith, filter-IsSorted p m, Above-filter p r.0 m)

  pub selected-IsSorted :
      (prefix after : Text) (m : BTreeMap Text T) → IsSorted m → IsSorted (selected prefix after m)
  selected-IsSorted prefix after m s = filter-IsSorted (in_page prefix after) m s

  pub filter-Above : (k : Text) (m : BTreeMap Text T) → Above k m → filter (λ r. k <? r.0) m ≡ m
  filter-Above k [] a = refl
  filter-Above k (r ∷ m) a = ground (arith, filter-Above k m)

  -- A later cursor selects from what an earlier one selected.
  pub selected-selected :
      (prefix after next : Text) (m : List (Text × T))
      → cmp_text after next ≡ Ordering.lt
      → selected prefix next m ≡ filter (λ r. next <? r.0) (selected prefix after m)
  selected-selected prefix after next [] h = refl
  selected-selected prefix after next (r ∷ m) h =
      ground (arith, selected-selected prefix after next m, text_ord.lt_trans after next r.0)

  last-Above :
      (k : Text) (n : ℕ) (m : BTreeMap Text T) (last : Text × T)
      → Above k m
      → get_last? (take n m) ≡ some last
      → cmp_text k last.0 ≡ Ordering.lt
  last-Above k zero m last a e = cc
  last-Above k (suc n) [] last a e = cc
  last-Above k (suc zero) (r ∷ m) last a e = ground arith
  last-Above k (suc (suc n)) (r ∷ []) last a e = ground arith
  last-Above k (suc (suc n)) (r ∷ q ∷ m) last a e = last-Above k (suc n) (q ∷ m) last a.1 e

  -- What lies above the last row of a page is what the page leaves over.
  pub above_last :
      (n : ℕ) (m : BTreeMap Text T) (last : Text × T)
      → IsSorted m
      → get_last? (take n m) ≡ some last
      → filter (λ r. last.0 <? r.0) m ≡ drop n m
  above_last zero m last s e = cc
  above_last (suc n) [] last s e = cc
  above_last (suc zero) (r ∷ m) last s e =
      ground (arith, filter-Above r.0 m s.0, text_ord.cmp_self r.0)
  above_last (suc (suc n)) (r ∷ []) last s e = ground (arith, text_ord.cmp_self r.0)
  above_last (suc (suc n)) (r ∷ q ∷ m) last s e = ground (
    arith,
    above_last (suc n) (q ∷ m) last s.1 e,
    last-Above r.0 (suc n) (q ∷ m) last s.0 e,
    text_ord.gt_of_lt r.0 last.0,
  )
