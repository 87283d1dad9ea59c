-- ===== src/Ipc/Ring/Contents.antt =====
-- A ring holds a queue of bytes, oldest first, and loses what does not fit.
use knit_os.Base.{
  ℕ, zero, suc, ◌+◌, ◌-◌, ◌%◌, ◌≡◌, ◌≤◌, ◌<◌, ◌≢◌, refl, sym, ap, ◌∙◌, List, [], ◌∷◌, ◌++◌, none,
  some, length, length-append, length-set, get_or, get_or-set_self, get_or-set_ne, set, take, leb,
  ◌==◌, arith, ◌⊎◌, inl, inr, Bool-cases, append_assoc, append-nil, take_all,
}
use knit_os.Ipc.Ring.{Ring, ring_size, put, first, advance, ring_push, ring_pop, push_all, IsRing}

-- `n` bytes of the buffer from the index `t` on, going round at its end.
unfoldable pub reading : List ℕ → ℕ → ℕ → List ℕ
reading buf t zero = []
reading buf t (suc n) = get_or buf t 0 ∷ reading buf ((t + 1) % ring_size) n

abbrev pub contents : Ring → List ℕ
contents r = reading r.buf r.tail r.count

pub length-reading : (buf : List ℕ) (t n : ℕ) → length (reading buf t n) ≡ n
unfolding reading
length-reading buf t zero = refl
length-reading buf t (suc n) = ap suc (length-reading buf ((t + 1) % ring_size) n)

-- One byte more is read behind the others.
reading_snoc :
    (buf : List ℕ) (t n i : ℕ)
    → t < ring_size
    → i ≡ (t + n) % ring_size
    → reading buf t (suc n) ≡ reading buf t n ++ get_or buf i 0 ∷ []
unfolding reading
reading_snoc buf t zero i h e = let e' : i ≡ t = omega arith in rw e'
reading_snoc buf t (suc n) i h e =
    ap (◌∷◌ (get_or buf t 0))
      (reading_snoc buf ((t + 1) % ring_size) n i (omega arith) (omega arith))

-- A write just behind the bytes that are read changes none of them.
reading-set :
    (buf : List ℕ) (t n i c : ℕ)
    → t < ring_size
    → n < ring_size
    → i ≡ (t + n) % ring_size
    → reading (set buf i c) t n ≡ reading buf t n
unfolding reading
reading-set buf t zero i c ht hn e = refl
reading-set buf t (suc n) i c ht hn e = rw (
  get_or-set_ne buf i t c 0 (omega arith),
  reading-set buf ((t + 1) % ring_size) n i c (omega arith) (omega arith) (omega arith),
)

pub put-IsRing : (r : Ring) (c : ℕ) → IsRing r → r.count < ring_size → IsRing (put r c)
unfolding put
put-IsRing r c v h = omega (arith, length-set r.buf r.head c)

pub contents-put :
    (r : Ring) (c : ℕ) → IsRing r → r.count < ring_size → contents (put r c) ≡ contents r ++ c ∷ []
unfolding put
contents-put r c v h =
    let e : (r.count + 1) % 4294967296 ≡ suc r.count = omega arith in
    rw (
      e,
      reading_snoc (set r.buf r.head c) r.tail r.count r.head v.tail_in v.head_at,
      reading-set r.buf r.tail r.count r.head c v.tail_in h v.head_at,
      get_or-set_self r.buf r.head c 0 (omega arith),
    )

pub advance-IsRing : (r : Ring) → IsRing r → r.count ≢ 0 → IsRing (advance r)
unfolding advance
advance-IsRing r v h = omega arith

pub contents-advance : (r : Ring) → r.count ≢ 0 → contents r ≡ first r ∷ contents (advance r)
unfolding first advance reading
contents-advance r h = go r.count h
  where
    go :
        (n : ℕ)
        → n ≢ 0
        → reading r.buf r.tail n
          ≡ get_or r.buf r.tail 0 ∷ reading r.buf ((r.tail + 1) % ring_size) (n - 1)
    go zero z = absurd (z refl)
    go (suc n) z = let e : suc n - 1 ≡ n = omega arith in rw (e, reading)

pub length-contents : (r : Ring) → length (contents r) ≡ r.count
length-contents r = length-reading r.buf r.tail r.count

pub ring_push-IsRing : (r : Ring) (c : ℕ) → IsRing r → IsRing (ring_push r c)
unfolding ring_push
ring_push-IsRing r c v = elim (Bool-cases (leb ring_size r.count)) [
  | inl full ↦ rw full v
  | inr room ↦ rw room (put-IsRing r c v (ground arith))
]

pub push_all-IsRing : (r : Ring) (cs : List ℕ) → IsRing r → IsRing (push_all r cs)
unfolding push_all
push_all-IsRing r [] v = v
push_all-IsRing r (c ∷ cs) v = push_all-IsRing (ring_push r c) cs (ring_push-IsRing r c v)

pub take_append {ℓ} :
    {A : Type ℓ} (n : ℕ) (xs ys : List A) → n ≤ length xs → take n (xs ++ ys) ≡ take n xs
take_append zero xs ys h = refl
take_append (suc n) [] ys h = absurd (omega arith)
take_append (suc n) (x ∷ xs) ys h = ap (◌∷◌ x) (take_append n xs ys (omega arith))

-- Cutting early is no different from cutting late.
pub take-take-append {ℓ} :
    {A : Type ℓ} (n : ℕ) (xs ys : List A) → take n (take n xs ++ ys) ≡ take n (xs ++ ys)
take-take-append zero xs ys = refl
take-take-append (suc n) [] ys = refl
take-take-append (suc n) (x ∷ xs) ys = ap (◌∷◌ x) (take-take-append n xs ys)

-- A byte is stored behind the others, or lost if the ring is full.
pub contents-ring_push :
    (r : Ring) (c : ℕ) → IsRing r → contents (ring_push r c) ≡ take ring_size (contents r ++ c ∷ [])
unfolding ring_push
contents-ring_push r c v = elim (Bool-cases (leb ring_size r.count)) [
  | inl full ↦ rw full (
      sym (
        take_append ring_size (contents r) (c ∷ []) (ground (arith, length-contents r))
        ∙ take_all ring_size (contents r) (omega (arith, length-contents r, v.count_in))))
  | inr room ↦ rw room (
      contents-put r c v (ground arith)
      ∙ sym (
          take_all ring_size _
            (ground (arith, length-contents r, length-append (contents r) (c ∷ [])))))
]

pub contents-push_all :
    (r : Ring) (cs : List ℕ)
    → IsRing r
    → contents (push_all r cs) ≡ take ring_size (contents r ++ cs)
unfolding push_all
contents-push_all r [] v =
    rw append-nil
      (sym (take_all ring_size (contents r) (omega (arith, length-contents r, v.count_in))))
contents-push_all r (c ∷ cs) v =
    contents-push_all (ring_push r c) cs (ring_push-IsRing r c v)
    ∙ ap (λ z. take ring_size (z ++ cs)) (contents-ring_push r c v)
    ∙ take-take-append ring_size (contents r ++ c ∷ []) cs
    ∙ ap (take ring_size) (append_assoc (contents r) (c ∷ []) cs)

pub contents_of_empty : (r : Ring) → r.count ≡ 0 → contents r ≡ []
unfolding reading
contents_of_empty r e = rw e

pub count-put : (r : Ring) (c : ℕ) → r.count < ring_size → (put r c).count ≡ r.count + 1
unfolding put
count-put r c h = omega arith

-- A pop fails on the empty ring only, and otherwise takes the oldest byte.
pub ring_pop_cases :
    (r : Ring)
    → IsRing r
    → ((ring_pop r ≡ none) × (contents r ≡ []))
      ⊎ ((c : ℕ) × (q : Ring) × (ring_pop r ≡ some (c, q))
          × (contents r ≡ c ∷ contents q)
          × IsRing q)
unfolding ring_pop
ring_pop_cases r v = elim (Bool-cases (r.count == 0)) [
  | inl empty ↦ inl (rw empty, contents_of_empty r (ground arith))
  | inr ne ↦
      let nz : r.count ≢ 0 = ground arith in
      inr (first r, advance r, rw ne, contents-advance r nz, advance-IsRing r v nz)
]
