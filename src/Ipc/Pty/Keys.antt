-- ===== src/Ipc/Pty/Keys.antt =====
-- What each key does in canonical mode, against the abstract terminal.
use knit_os.Base.{
  ℕ, zero, suc, ◌+◌, ◌-◌, ◌≡◌, ◌≤◌, ◌<◌, ◌∙◌, refl, sym, ap, List, [], ◌∷◌, ◌++◌, ◌||◌, set, arith,
  take, length, length-append, length-set, length-take, ltb, ltb→lt, ◌==◌, Bool-cases, inl, inr,
  take_all,
}
use knit_os.Ipc.Ring.{Ring, IsRing, ring_size, ring_push, push_all}
use knit_os.Ipc.Ring.Contents.{
  contents, length-contents, take_append, ring_push-IsRing, push_all-IsRing, contents-ring_push,
  contents-push_all, take-take-append,
}
use knit_os.Ipc.Pty.{
  Pty, pty_echo, feed_line, type_newline, type_erase, type_interrupt, type_end, type_plain,
  type_byte,
}
use knit_os.Ipc.Pty.Terminal.{
  IsPty, init, entered, erased, interrupted, ended, extended, typed, view, Refines,
}

init-take {ℓ} :
    {A : Type ℓ} (n : ℕ) (xs : List A) → n < length xs → init (take (suc n) xs) ≡ take n xs
init-take zero (x ∷ xs) h = refl
init-take (suc n) [] h = absurd (omega arith)
init-take zero [] h = refl
init-take (suc n) (x ∷ []) h = absurd (omega arith)
init-take (suc n) (x ∷ y ∷ ys) h = ap (◌∷◌ x) (init-take n (y ∷ ys) (omega arith))

take-set {ℓ} :
    {A : Type ℓ} (n : ℕ) (xs : List A) (c : A)
    → n < length xs
    → take (suc n) (set xs n c) ≡ take n xs ++ c ∷ []
take-set n [] c h = absurd (omega arith)
take-set zero (x ∷ xs) c h = refl
take-set (suc n) (x ∷ xs) c h = ap (◌∷◌ x) (take-set n xs c (omega arith))

length-line : (p : Pty) → IsPty p → length (take p.line_len p.line) ≡ p.line_len
length-line p v = omega (arith, length-take p.line_len p.line)

contents-fed :
    (r : Ring) (xs : List ℕ) (c : ℕ)
    → IsRing r
    → contents (ring_push (push_all r xs) c) ≡ take ring_size (contents r ++ xs ++ c ∷ [])
contents-fed r xs c v =
    contents-ring_push (push_all r xs) c (push_all-IsRing r xs v)
    ∙ ap (λ z. take ring_size (z ++ c ∷ [])) (contents-push_all r xs v)
    ∙ take-take-append ring_size (contents r ++ xs) (c ∷ [])

pub same_contents : (r : Ring) → IsRing r → take ring_size (contents r) ≡ contents r
same_contents r v = take_all ring_size (contents r) (omega (arith, length-contents r, v.count_in))

type_newline-Refines : (p : Pty) → IsPty p → Refines (type_newline p) (entered (view p))
unfolding type_newline feed_line pty_echo
type_newline-Refines p v = (
  record {
    input_ok = ring_push-IsRing _ 10 (push_all-IsRing p.input _ v.input_ok);
    output_ok = push_all-IsRing p.output _ v.output_ok;
    line_room = v.line_room;
    line_in = omega arith;
  },
  rw (
    contents-fed p.input (take p.line_len p.line) 10 v.input_ok,
    contents-push_all p.output (13 ∷ 10 ∷ []) v.output_ok,
  ),
)

type_erase-Refines : (p : Pty) → IsPty p → Refines (type_erase p) (erased (view p))
unfolding type_erase pty_echo
type_erase-Refines p v = elim (Bool-cases (ltb 0 p.line_len)) [
  | inl some_typed ↦
      rw (some_typed, length-line p v, some_typed)
        (
          record {
            input_ok = v.input_ok;
            output_ok = push_all-IsRing p.output _ v.output_ok;
            line_room = v.line_room;
            line_in = omega (arith, v.line_in);
          },
          rw (
            contents-push_all p.output (8 ∷ 32 ∷ 8 ∷ []) v.output_ok,
            same_contents p.input v.input_ok,
            shorter (ltb→lt _ _ some_typed),
          ),
        )
  | inr nothing ↦
      rw (nothing, length-line p v, nothing)
        (v, rw (same_contents p.input v.input_ok, same_contents p.output v.output_ok))
]
  where
    shorter : 0 < p.line_len → init (take p.line_len p.line) ≡ take (p.line_len - 1) p.line
    shorter h =
        let e : p.line_len ≡ suc (p.line_len - 1) = omega arith in
        ap (λ n. init (take n p.line)) e
        ∙ init-take (p.line_len - 1) p.line (omega (arith, v.line_in, v.line_room))

type_interrupt-Refines : (p : Pty) → IsPty p → Refines (type_interrupt p) (interrupted (view p))
unfolding type_interrupt
type_interrupt-Refines p v = (
  record {
    input_ok = ring_push-IsRing p.input 3 v.input_ok;
    output_ok = v.output_ok;
    line_room = v.line_room;
    line_in = omega arith;
  },
  rw (contents-ring_push p.input 3 v.input_ok, same_contents p.output v.output_ok),
)

type_end-Refines : (p : Pty) → IsPty p → Refines (type_end p) (ended (view p))
unfolding type_end feed_line
type_end-Refines p v = (
  record {
    input_ok = push_all-IsRing p.input _ v.input_ok;
    output_ok = v.output_ok;
    line_room = v.line_room;
    line_in = omega arith;
  },
  rw (
    contents-push_all p.input (take p.line_len p.line) v.input_ok,
    same_contents p.output v.output_ok,
  ),
)

type_plain-Refines : (p : Pty) (c : ℕ) → IsPty p → Refines (type_plain p c) (extended (view p) c)
unfolding type_plain
type_plain-Refines p c v = elim (Bool-cases (ltb p.line_len ring_size)) [
  | inl room ↦ rw room (
    record {
      input_ok = v.input_ok;
      output_ok = ring_push-IsRing p.output c v.output_ok;
      line_room = length-set p.line p.line_len c ∙ v.line_room;
      line_in = omega (arith, ltb→lt _ _ room);
    },
    rw (
      contents-ring_push p.output c v.output_ok,
      same_contents p.input v.input_ok,
      longer (ltb→lt _ _ room),
    ),
  )
  | inr full ↦ rw full (
    record {
      input_ok = v.input_ok;
      output_ok = ring_push-IsRing p.output c v.output_ok;
      line_room = v.line_room;
      line_in = v.line_in;
    },
    rw (
      contents-ring_push p.output c v.output_ok,
      same_contents p.input v.input_ok,
      unchanged (ground arith),
    ),
  )
]
  where
    longer :
        p.line_len < ring_size
        → take (p.line_len + 1) (set p.line p.line_len c)
          ≡ take ring_size (take p.line_len p.line ++ c ∷ [])
    longer h =
        let e : p.line_len + 1 ≡ suc p.line_len = omega arith in
        rw e (
          take-set p.line_len p.line c (omega (arith, v.line_room))
          ∙ sym (
              take_all ring_size _
                (omega (arith, length-append (take p.line_len p.line) (c ∷ []), length-line p v))))

    unchanged :
        ring_size ≤ p.line_len
        → take ring_size (take p.line_len p.line ++ c ∷ []) ≡ take p.line_len p.line
    unchanged h =
        take_append ring_size (take p.line_len p.line) (c ∷ []) (omega (arith, length-line p v))
        ∙ take_all ring_size _ (omega (arith, length-line p v, v.line_in))

pub type_byte-Refines : (p : Pty) (c : ℕ) → IsPty p → Refines (type_byte p c) (typed (view p) c)
unfolding type_byte typed
type_byte-Refines p c v = elim (Bool-cases (c == 13 || c == 10)) [
  | inl t ↦ rw t (type_newline-Refines p v)
  | inr f ↦ elim (Bool-cases (c == 127 || c == 8)) [
    | inl t ↦ rw (f, t) (type_erase-Refines p v)
    | inr f' ↦ elim (Bool-cases (c == 3)) [
      | inl t ↦ rw (f, f', t) (type_interrupt-Refines p v)
      | inr g ↦ elim (Bool-cases (c == 4)) [
        | inl t ↦ rw (f, f', g, t) (type_end-Refines p v)
        | inr g' ↦ rw (f, f', g, g') (type_plain-Refines p c v)
      ]
    ]
  ]
]
