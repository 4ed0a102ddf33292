-- ===== src/Data/Wrap.antt =====
-- Wrapping an exception changes only what the wrapper is for: a chain of links in a heap is the
-- same chain after the heap has grown.
use core_py.Base.{
  ℕ, zero, suc, true, Option, none, some, List, [], ◌∷◌, ◌++◌, length, get_elem?, All, arith, ◌≡◌,
  refl, sym, ◌∙◌, ap, subst, ◌<◌, some_inj,
}
use core_py.Data.Chain.{First, here, there, get_elem?-lt, search_chain_iff, search_chain-ends}
use core_py.Data.{
  Exn, Heap, next, Walk, found, ended, out_of_fuel, search_chain, as_option, was_found,
  code_or_unexpected, pick_code, pick_payload, pick_retryable, code_of, error_data,
  is_retryable_error, with_retryable_error, with_error_data, raise_from, own_code, extra_data_error,
  retryable_error,
}

-- A link stays below a bound; in a closed heap each link leads to an exception of the heap.
unfoldable pub Below : ℕ → Option ℕ → Type 0
Below n none = Unit
Below n (some a) = a < n

unfoldable pub IsClosed : Heap → Type 0
unfolding Below next
IsClosed h = All (λ e. Below (length h) (next e)) h

get_elem?-append {ℓ} :
    {A : Type ℓ} (xs ys : List A) (n : ℕ) → n < length xs → get_elem? (xs ++ ys) n ≡ get_elem? xs n
get_elem?-append [] ys n h = absurd (omega arith)
get_elem?-append (x ∷ xs) ys zero h = refl
get_elem?-append (x ∷ xs) ys (suc n) h = get_elem?-append xs ys n (omega arith)

get_elem?-length {ℓ} :
    {A : Type ℓ} (xs : List A) (y : A) → get_elem? (xs ++ y ∷ []) (length xs) ≡ some y
get_elem?-length [] y = refl
get_elem?-length (x ∷ xs) y = get_elem?-length xs y

All-get_elem? {ℓ κ} :
    {A : Type ℓ} (P : A → Type κ) (xs : List A) (n : ℕ) (x : A)
    → All P xs
    → get_elem? xs n ≡ some x
    → P x
All-get_elem? P [] n x h e = absurd cc
All-get_elem? P (y ∷ xs) zero x h e = subst P (some_inj e) h.0
All-get_elem? P (y ∷ xs) (suc n) x h e = All-get_elem? P xs n x h.1 e

module _ {ℓ} {A : Type ℓ} (pick : Exn → Option A) (h : Heap) (w : Exn) where
  First-grow : {n : ℕ} {o : Option ℕ} {x : A} → First pick h n o x → First pick (h ++ w ∷ []) n o x
  First-grow (here {a = a} {e = v} e p) =
      here (get_elem?-append h (w ∷ []) a (get_elem?-lt h a v e) ∙ e) p
  First-grow (there {a = a} {e = v} e p f) =
      there (get_elem?-append h (w ∷ []) a (get_elem?-lt h a v e) ∙ e) p (First-grow f)

  First-shrink :
      {n : ℕ} {o : Option ℕ} {x : A}
      → IsClosed h
      → Below (length h) o
      → First pick (h ++ w ∷ []) n o x
      → First pick h n o x
  unfolding IsClosed Below
  First-shrink closed b (here {a = a} e p) = here (sym (get_elem?-append h (w ∷ []) a b) ∙ e) p
  First-shrink closed b (there {a = a} {e = v} e p f) =
      let old = sym (get_elem?-append h (w ∷ []) a b) ∙ e in
      there old p
        (First-shrink closed (All-get_elem? (λ e. Below (length h) (next e)) h a v closed old) f)

same_walk {ℓ} :
    {A : Type ℓ} (s t : Walk A)
    → ¬ (s ≡ out_of_fuel)
    → ¬ (t ≡ out_of_fuel)
    → ((x : A) → s ≡ found x → t ≡ found x)
    → ((x : A) → t ≡ found x → s ≡ found x)
    → s ≡ t
same_walk (found x) t hs ht f g = sym (f x refl)
same_walk s (found x) hs ht f g = g x refl
same_walk ended ended hs ht f g = refl
same_walk out_of_fuel t hs ht f g = absurd (hs refl)
same_walk s out_of_fuel hs ht f g = absurd (ht refl)

module _ {ℓ} {A : Type ℓ} (pick : Exn → Option A) (h : Heap) (w : Exn) (a : ℕ) where
  First-through :
      {n : ℕ} {x : A}
      → pick w ≡ none
      → next w ≡ some a
      → First pick (h ++ w ∷ []) n (some (length h)) x
      → (m : ℕ) × First pick (h ++ w ∷ []) m (some a) x
  First-through p l (here {e = v} e q) =
      let same : v ≡ w = cc (get_elem?-length h w) in absurd (cc (ap pick same))
  First-through p l (there {n = m} {e = v} {x = x} e q f) =
      let same : v ≡ w = cc (get_elem?-length h w) in
      (m, subst (λ o. First pick (h ++ w ∷ []) m o x) (ap next same ∙ l) f)

  -- A new exception that the test refuses, raised from one of a closed heap, hides nothing.
  search_chain-wrap :
      IsClosed h
      → a < length h
      → pick w ≡ none
      → next w ≡ some a
      → search_chain pick (h ++ w ∷ []) (some (length h)) ≡ search_chain pick h (some a)
  unfolding Below
  search_chain-wrap closed b p l =
      same_walk (search_chain pick (h ++ w ∷ []) (some (length h))) (search_chain pick h (some a))
        (search_chain-ends pick (h ++ w ∷ []) (some (length h))) (search_chain-ends pick h (some a))
        (λ x r.
          let c = (search_chain_iff pick (h ++ w ∷ []) (some (length h)) x).0 r in
          let t = First-through p l c.1 in
          (search_chain_iff pick h (some a) x).1 (t.0, First-shrink pick h w closed b t.1))
        (λ x r.
          let c = (search_chain_iff pick h (some a) x).0 r in
          (search_chain_iff pick (h ++ w ∷ []) (some (length h)) x).1 (
            suc c.0,
            there (get_elem?-length h w) p
                (subst (λ o. First pick (h ++ w ∷ []) c.0 o x) (sym l) (First-grow pick h w c.1)),
          ))

  search_chain-new :
      (x : A) → pick w ≡ some x → search_chain pick (h ++ w ∷ []) (some (length h)) ≡ found x
  search_chain-new x p =
      (search_chain_iff pick (h ++ w ∷ []) (some (length h)) x).1 (0, here (get_elem?-length h w) p)

-- In a closed heap, an exception of it that is marked retryable is retryable, and its code and its
-- data stay what they were.
pub with_retryable_error_lem :
    (h : Heap) (a : ℕ)
    → IsClosed h
    → a < length h
    → let r = with_retryable_error h (some a) in
      (is_retryable_error r.0 r.1 ≡ true)
      × (code_of r.0 r.1 ≡ code_of h (some a))
      × (error_data r.0 r.1 ≡ error_data h (some a))
unfolding with_retryable_error raise_from is_retryable_error code_of error_data next pick_code
    pick_payload pick_retryable own_code
with_retryable_error_lem h a closed b =
    let w : Exn = record { kind = retryable_error; cause = some a; context = none } in
    (
      ap was_found (search_chain-new pick_retryable h w a true refl),
      ap code_or_unexpected (search_chain-wrap pick_code h w a closed b refl refl),
      ap as_option (search_chain-wrap pick_payload h w a closed b refl refl),
    )

-- In a closed heap, data put on an exception of it is the data read back, over any data it had,
-- and its code stays and whether it is retryable.
pub with_error_data_lem :
    (h : Heap) (a payload : ℕ)
    → IsClosed h
    → a < length h
    → let r = with_error_data h (some a) payload in
      (error_data r.0 r.1 ≡ some payload)
      × (code_of r.0 r.1 ≡ code_of h (some a))
      × (is_retryable_error r.0 r.1 ≡ is_retryable_error h (some a))
unfolding with_error_data raise_from is_retryable_error code_of error_data next pick_code
    pick_payload pick_retryable own_code
with_error_data_lem h a payload closed b =
    let w : Exn = record { kind = extra_data_error payload; cause = some a; context = none } in
    (
      ap as_option (search_chain-new pick_payload h w a payload refl),
      ap code_or_unexpected (search_chain-wrap pick_code h w a closed b refl refl),
      ap was_found (search_chain-wrap pick_retryable h w a closed b refl refl),
    )
