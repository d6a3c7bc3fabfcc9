-- ===== src/Client/Paged.antt =====
-- A client that walks a sorted listing, page by page, reads all of it.
use lakefs_auth.Common.{
  ℕ, zero, suc, ◌+◌, ◌-◌, ◌*◌, ◌≤◌, ◌<◌, ◌≡◌, refl, sym, ap, ◌∙◌, arith, Bool, true, false, some,
  List, [], ◌∷◌, ◌++◌, map, length, take, drop, filter, get_last?, is_empty, All, take-append-drop,
  length-drop, take-whole, Ordering,
}
use lakefs_auth.Std.Order.{Text, text_ord, cmp_text}
use lakefs_auth.Std.BTreeMap.{BTreeMap, IsSorted}
use lakefs_auth.Std.Str.{starts_with}
use lakefs_auth.Std.Result.{Result, ok}
use lakefs_auth.Core.Pagination.{
  CursorWalk, ListResponse, new_walk, advance, page_sorted, into_response, in_page,
}
use lakefs_auth.Core.Pagination.Pages.{
  selected, query_of, page_of, page_sorted-page_of, selected-IsSorted, selected-selected,
  above_last,
}
use lakefs_auth.Client.{
  ClientError, Walked, after_advance, after_fetch, walk_loop, list_all, max_pages,
}
use mathlib.Core.List.{append_assoc, map-append}
use mathlib.Core.Option.{some-injective}
use mathlib.Core.Path.{subst}
use native.Mathlib.Decide.{dec_lt}

module _ {ℓ} {A : Type ℓ} where
  All-filter : (p : A → Bool) (m : List A) → All (λ r. p r ≡ true) (filter p m)
  All-filter p [] = tt
  All-filter p (r ∷ m) = ground (arith, All-filter p m)

  All-last :
      (P : A → Type 0) (n : ℕ) (m : List A) (last : A)
      → All P m
      → get_last? (take n m) ≡ some last
      → P last
  All-last P zero m last h e = cc
  All-last P (suc n) [] last h e = cc
  All-last P (suc zero) (r ∷ m) last h e = subst P (some-injective _ _ e) h.0
  All-last P (suc (suc n)) (r ∷ []) last h e = subst P (some-injective _ _ e) h.0
  All-last P (suc (suc n)) (r ∷ q ∷ m) last h e = All-last P (suc n) (q ∷ m) last h.1 e

  last_exists :
      (n : ℕ) (m : List A) → 0 < n → 0 < length m → (r : A) × (get_last? (take n m) ≡ some r)
  last_exists zero m h k = absurd (omega arith)
  last_exists (suc n) [] h k = absurd (omega arith)
  last_exists (suc zero) (r ∷ m) h k = (r, refl)
  last_exists (suc (suc n)) (r ∷ []) h k = (r, refl)
  last_exists (suc (suc n)) (r ∷ q ∷ m) h k =
      last_exists (suc n) (q ∷ m) (omega arith) (omega arith)

-- What a server answers that lists `rows` with `n` rows on a page.
abbrev pub serve_rows {ℓ} :
    {T : Type ℓ} → Text → ℕ → BTreeMap Text T → ℕ → Text → Result (ListResponse T) ClientError
serve_rows prefix n rows page after =
    ok (into_response (page_sorted rows (query_of prefix after n)))

text-ne-empty : (s t : Text) → cmp_text s t ≡ Ordering.lt → is_empty t ≡ false
unfolding cmp_text
text-ne-empty [] [] h = cc
text-ne-empty (c ∷ s) [] h = cc
text-ne-empty s (d ∷ t) h = refl

-- What is left to list fits the pages that are left.
room : (n k len : ℕ) → n < len → len ≤ n * k → (1 < k) × (len - n ≤ n * (k - 1))
room n zero len h e = absurd (grind arith)
room n (suc zero) len h e = absurd (grind arith)
room n (suc (suc k)) len h e = (omega arith, grind arith)

module _ {ℓ} {T : Type ℓ} where
  items_rest :
      (acc : List T) (n : ℕ) (m : List (Text × T))
      → (acc ++ map (λ r. r.1) (take n m)) ++ map (λ r. r.1) (drop n m) ≡ acc ++ map (λ r. r.1) m
  items_rest acc n m =
      append_assoc acc _ _
      ∙ ap (λ (l : List T). acc ++ l)
          (sym (map-append _ _ _) ∙ ap (map (λ r. r.1)) (take-append-drop n m))

  -- One round: the last page ends the walk, any other moves the cursor to its last row.
  last_round :
      (again : CursorWalk → List T → Walked T) (w : CursorWalk) (acc : List T) (n : ℕ)
      (m : List (Text × T))
      → length m ≤ n
      → after_fetch again w acc (ok (into_response (page_of n m)))
        ≡ some (ok (acc ++ map (λ r. r.1) m))
  unfolding after_fetch after_advance advance into_response page_of
  last_round again w acc n m h = rw (take-whole m n h) (ground arith)

  next_round :
      (again : CursorWalk → List T → Walked T) (w : CursorWalk) (acc : List T) (n : ℕ)
      (m : List (Text × T)) (last : Text × T)
      → n < length m
      → get_last? (take n m) ≡ some last
      → cmp_text w.after last.0 ≡ Ordering.lt
      → w.pages + 1 < w.max_pages
      → after_fetch again w acc (ok (into_response (page_of n m)))
        ≡ again
            (record w { pages = w.pages + 1; after = last.0 })
            (acc ++ map (λ r. r.1) (take n m))
  unfolding after_fetch after_advance advance into_response page_of
  next_round again w acc n m last h e above more =
      ground (arith, e, text_ord.gt_of_lt w.after last.0 above, text-ne-empty w.after last.0 above)

  -- The last row of a page lies above the cursor, and the next cursor selects what was left over.
  above_cursor :
      (prefix after : Text) (n : ℕ) (rows : BTreeMap Text T) (last : Text × T)
      → get_last? (take n (selected prefix after rows)) ≡ some last
      → cmp_text after last.0 ≡ Ordering.lt
  above_cursor prefix after n rows last e =
      let kept : in_page prefix after last ≡ true =
        All-last (λ r. in_page prefix after r ≡ true) n _ last
          (All-filter (in_page prefix after) rows) e in
      ground arith

  selected-next :
      (prefix after : Text) (n : ℕ) (rows : BTreeMap Text T) (last : Text × T)
      → IsSorted rows
      → get_last? (take n (selected prefix after rows)) ≡ some last
      → selected prefix last.0 rows ≡ drop n (selected prefix after rows)
  selected-next prefix after n rows last s e =
      selected-selected prefix after last.0 rows (above_cursor prefix after n rows last e)
      ∙ above_last n (selected prefix after rows) last (selected-IsSorted prefix after rows s) e

  walk_loop-serve_rows :
      (prefix : Text) (n : ℕ) (rows : BTreeMap Text T) (fuel : ℕ) (w : CursorWalk) (acc : List T)
      → IsSorted rows
      → 0 < n
      → w.pages < w.max_pages
      → w.max_pages ≤ w.pages + fuel
      → length (selected prefix w.after rows) ≤ n * (w.max_pages - w.pages)
      → walk_loop (serve_rows prefix n rows) fuel w acc
        ≡ some (ok (acc ++ map (λ r. r.1) (selected prefix w.after rows)))
  unfolding walk_loop
  walk_loop-serve_rows prefix n rows zero w acc s pos below enough fits = absurd (omega arith)
  walk_loop-serve_rows prefix n rows (suc fuel) w acc s pos below enough fits =
      rw page_sorted-page_of (elim (dec_lt n (length m)) [
        | no h ↦ last_round (walk_loop (serve_rows prefix n rows) fuel) w acc n m (omega arith)
        | yes h ↦
            let (last, e) = last_exists n m pos (omega arith) in
            let (more, left) = room n (w.max_pages - w.pages) (length m) h fits in
            let w' : CursorWalk = record w { pages = w.pages + 1; after = last.0 } in
            let next : selected prefix last.0 rows ≡ drop n m =
              selected-next prefix w.after n rows last s e in
            let same : w.max_pages - (w.pages + 1) ≡ w.max_pages - w.pages - 1 = omega arith in
            next_round (walk_loop (serve_rows prefix n rows) fuel) w acc n m last h e
              (above_cursor prefix w.after n rows last e) (omega arith)
            ∙ walk_loop-serve_rows prefix n rows fuel w' (acc ++ map (λ r. r.1) (take n m)) s pos
                (omega arith) (omega arith) (rw (next, length-drop, same) left)
            ∙ rw next (ap (λ (l : List T). some (ok l)) (items_rest acc n m))
      ])
    where
      m : List (Text × T)
      m = selected prefix w.after rows

abbrev pub HasKey {ℓ} : {T : Type ℓ} → Text × T → Type 0
HasKey row = is_empty row.0 ≡ false

selected-start {ℓ} :
    {T : Type ℓ} (prefix : Text) (rows : BTreeMap Text T)
    → All HasKey rows
    → selected prefix [] rows ≡ filter (λ r. starts_with r.0 prefix) rows
unfolding cmp_text
selected-start prefix [] h = refl
selected-start prefix (([], v) ∷ rows) h = cc
selected-start prefix ((c ∷ k, v) ∷ rows) h = ground (arith, selected-start prefix rows)

-- A client that lists the rows of a server, which pages them in the order of their keys with at least
-- one on a page, reads exactly the rows with the prefix, in order, if no key is empty and they fit
-- on the pages that the client reads at most.
pub list_all-serve_rows {ℓ} :
    {T : Type ℓ} (prefix : Text) (n : ℕ) (rows : BTreeMap Text T)
    → IsSorted rows
    → All HasKey rows
    → 0 < n
    → length (filter (λ r. starts_with r.0 prefix) rows) ≤ n * max_pages
    → list_all (serve_rows prefix n rows)
      ≡ some (ok (map (λ r. r.1) (filter (λ r. starts_with r.0 prefix) rows)))
list_all-serve_rows prefix n rows s h pos fits =
    unfold list_all new_walk in
    (walk_loop-serve_rows prefix n rows max_pages (new_walk max_pages) [] s pos (omega arith)
        (omega arith) (rw (selected-start prefix rows h) fits)
      ∙ rw (selected-start prefix rows h))
