-- ===== src/Ipc/Pty/Terminal.antt =====
-- The abstract terminal that a pty is to its two sides, with queues that have no bound.
use knit_os.Base.{
  ℕ, ◌≡◌, ◌≤◌, ◌∙◌, sym, ap, List, [], ◌∷◌, ◌++◌, Bool, true, ◌||◌, take, append_assoc, append-nil,
  length, ltb, ◌==◌, if◌then◌else◌, Bool-cases, inl, inr,
}
use knit_os.Ipc.Ring.{IsRing, ring_size}
use knit_os.Ipc.Ring.Contents.{contents, take-take-append}
use knit_os.Ipc.Pty.{Pty}

-- The rings are in order, and the line that is being typed lies in its array.
pub record IsPty (p : Pty) : Type 0 where
  pub input_ok : IsRing p.input
  pub output_ok : IsRing p.output
  pub line_room : length p.line ≡ ring_size
  pub line_in : p.line_len ≤ ring_size

-- What the two sides see: the line typed so far, the bytes for the slave, those for the master, and
-- the two flags. The queues of this terminal have no bound.
pub record Terminal : Type 0 where
  pub line : List ℕ
  pub input : List ℕ
  pub output : List ℕ
  pub sigint : Bool
  pub eof : Bool

abbrev pub init {ℓ} : {A : Type ℓ} → List A → List A
init [] = []
init (x ∷ []) = []
init (x ∷ y ∷ ys) = x ∷ init (y ∷ ys)

-- A line is edited, echoed, and delivered with a line feed when it is complete.
abbrev pub entered : Terminal → Terminal
entered t = record t {
  line = [];
  input = t.input ++ t.line ++ 10 ∷ [];
  output = t.output ++ 13 ∷ 10 ∷ [];
}

abbrev pub erased : Terminal → Terminal
erased t =
    if ltb 0 (length t.line)
    then record t { line = init t.line; output = t.output ++ 8 ∷ 32 ∷ 8 ∷ [] }
    else t

abbrev pub interrupted : Terminal → Terminal
interrupted t = record t { line = []; input = t.input ++ 3 ∷ []; sigint = true }

abbrev pub ended : Terminal → Terminal
ended t = record t { line = []; input = t.input ++ t.line; eof = true }

abbrev pub extended : Terminal → ℕ → Terminal
extended t c = record t { line = take ring_size (t.line ++ c ∷ []); output = t.output ++ c ∷ [] }

unfoldable pub typed : Terminal → ℕ → Terminal
typed t c =
    if c == 13 || c == 10
    then entered t
    else if c == 127 || c == 8
    then erased t
    else if c == 3
    then interrupted t
    else if c == 4
    then ended t
    else extended t c

unfoldable pub typed_all : Terminal → List ℕ → Terminal
typed_all t [] = t
typed_all t (c ∷ cs) = typed_all (typed t c) cs

-- What fits in the rings of the pty.
abbrev pub clip : Terminal → Terminal
clip t = record t { input = take ring_size t.input; output = take ring_size t.output }

abbrev pub view : Pty → Terminal
view p = record {
  line = take p.line_len p.line;
  input = contents p.input;
  output = contents p.output;
  sigint = p.sigint;
  eof = p.eof;
}

abbrev pub Refines : Pty → Terminal → Type 0
Refines p t = IsPty p × (view p ≡ clip t)

pub take-take : (xs : List ℕ) → take ring_size (take ring_size xs) ≡ take ring_size xs
take-take xs =
    sym (ap (take ring_size) (append-nil (take ring_size xs)))
    ∙ take-take-append ring_size xs []
    ∙ ap (take ring_size) (append-nil xs)

take-take-append₂ :
    (xs ys zs : List ℕ)
    → take ring_size (take ring_size xs ++ ys ++ zs) ≡ take ring_size (xs ++ ys ++ zs)
take-take-append₂ xs ys zs =
    ap (take ring_size) (append_assoc (take ring_size xs) ys zs)
    ∙ take-take-append ring_size xs (ys ++ zs)
    ∙ ap (take ring_size) (sym (append_assoc xs ys zs))

clip-entered : (t : Terminal) → clip (entered (clip t)) ≡ clip (entered t)
clip-entered t =
    rw (
      take-take-append₂ t.input t.line (10 ∷ []),
      take-take-append ring_size t.output (13 ∷ 10 ∷ []),
    )

clip-erased : (t : Terminal) → clip (erased (clip t)) ≡ clip (erased t)
clip-erased t = elim (Bool-cases (ltb 0 (length t.line))) [
  | inl h ↦ rw (h, take-take t.input, take-take-append ring_size t.output (8 ∷ 32 ∷ 8 ∷ []))
  | inr h ↦ rw (h, take-take t.input, take-take t.output)
]

clip-interrupted : (t : Terminal) → clip (interrupted (clip t)) ≡ clip (interrupted t)
clip-interrupted t = rw (take-take-append ring_size t.input (3 ∷ []), take-take t.output)

clip-ended : (t : Terminal) → clip (ended (clip t)) ≡ clip (ended t)
clip-ended t = rw (take-take-append ring_size t.input t.line, take-take t.output)

clip-extended : (t : Terminal) (c : ℕ) → clip (extended (clip t) c) ≡ clip (extended t c)
clip-extended t c = rw (take-take t.input, take-take-append ring_size t.output (c ∷ []))

-- Cutting the queues before a byte is typed makes no difference once they are cut after it.
clip-typed : (t : Terminal) (c : ℕ) → clip (typed (clip t) c) ≡ clip (typed t c)
unfolding typed
clip-typed t c = elim (Bool-cases (c == 13 || c == 10)) [
  | inl h ↦ rw (h, typed) (clip-entered t)
  | inr f ↦ elim (Bool-cases (c == 127 || c == 8)) [
    | inl h ↦ rw (f, h, typed) (clip-erased t)
    | inr f' ↦ elim (Bool-cases (c == 3)) [
      | inl h ↦ rw (f, f', h, typed) (clip-interrupted t)
      | inr g ↦ elim (Bool-cases (c == 4)) [
        | inl h ↦ rw (f, f', g, h, typed) (clip-ended t)
        | inr g' ↦ rw (f, f', g, g', typed) (clip-extended t c)
      ]
    ]
  ]
]

pub clip-typed_all :
    (t : Terminal) (cs : List ℕ) → clip (typed_all (clip t) cs) ≡ clip (typed_all t cs)
unfolding typed_all
clip-typed_all t [] = rw (take-take t.input, take-take t.output)
clip-typed_all t (c ∷ cs) =
    sym (clip-typed_all (typed (clip t) c) cs)
    ∙ ap (λ z. clip (typed_all z cs)) (clip-typed t c)
    ∙ clip-typed_all (typed t c) cs
