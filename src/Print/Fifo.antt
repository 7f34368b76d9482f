-- ===== src/Print/Fifo.antt =====
-- The ring of print.c as a queue: a list of strings, the one that is typed first.
use memtype.Base.{
  ℕ, suc, ◌+◌, ◌%◌, ◌≤◌, ◌<◌, ◌≡◌, ◌≢◌, ◌∙◌, ap, subst, true, false, ltb, update, if◌then◌else◌,
  List, [], ◌∷◌, ◌++◌, length, inl, inr, Bool-cases, ◌==◌, ==_false→ne, arith,
}
use memtype.State.{Printer, StrPtr, Info, Ptr}
use memtype.Print.{is_empty, entry, print}
use memtype.Print.Queue.{slot, Free, Taken, print-first, print-full}

-- The entries from place `i` on hold these strings, and those behind them are free.
abbrev pub HoldsFrom : ℕ → List StrPtr → Printer → Type 0
HoldsFrom i [] p = (j : ℕ) → i ≤ j → j < 5 → Free p j
HoldsFrom i (s ∷ ss) p =
    (i < 5) × (p.str_buf (slot p i) ≡ s) × (is_empty s.info ≡ false) × HoldsFrom (i + 1) ss p

-- The strings that wait, in the order in which they are typed.
abbrev pub Holds : List StrPtr → Printer → Type 0
Holds ss p = (p.act_string < 5) × HoldsFrom 0 ss p

-- A bounded queue.
unfoldable pub enqueue : StrPtr → List StrPtr → List StrPtr
enqueue s ss = if ltb (length ss) 5 then ss ++ (s ∷ []) else ss

HoldsFrom-Taken :
    (i : ℕ) (ss : List StrPtr) (p : Printer)
    → HoldsFrom i ss p
    → (j : ℕ) → i ≤ j
    → j < i + length ss
    → Taken p j
unfolding is_empty
HoldsFrom-Taken i [] p h = λ j lo hi. absurd (omega (arith, lo, hi))
HoldsFrom-Taken i (s ∷ ss) p (_, here, busy, rest) = λ j lo hi. elim (Bool-cases (ltb i j)) [
  | inl later ↦ HoldsFrom-Taken (i + 1) ss p rest j (ground (arith, later)) (omega (arith, hi))
  | inr now ↦
      let e : i ≡ j = ground (arith, now, lo) in
      subst (Taken p) e (ap (λ (x : StrPtr). is_empty x.info) here ∙ busy)
]

HoldsFrom-Free :
    (i : ℕ) (ss : List StrPtr) (p : Printer)
    → HoldsFrom i ss p
    → i + length ss < 5
    → Free p (i + length ss)
HoldsFrom-Free i [] p h = λ lt. h (i + 0) (omega arith) lt
HoldsFrom-Free i (s ∷ ss) p (_, _, _, rest) = λ lt.
    let e : i + 1 + length ss ≡ i + suc (length ss) = omega arith in
    subst (Free p) e (HoldsFrom-Free (i + 1) ss p rest (omega (arith, lt)))

HoldsFrom-length :
    (i : ℕ) (ss : List StrPtr) (p : Printer) → i ≤ 5 → HoldsFrom i ss p → i + length ss ≤ 5
HoldsFrom-length i [] p le h = omega (arith, le)
HoldsFrom-length i (s ∷ ss) p le (lt, _, _, rest) =
    omega (arith, HoldsFrom-length (i + 1) ss p (omega (arith, lt)) rest)

-- A string at the first free place is the last one.
HoldsFrom-snoc :
    (i k : ℕ) (s : StrPtr) (ss : List StrPtr) (p : Printer)
    → is_empty s.info ≡ false
    → i + length ss ≡ k
    → k < 5
    → HoldsFrom i ss p
    → HoldsFrom i (ss ++ (s ∷ [])) (record p { str_buf = update p.str_buf (slot p k) s })
HoldsFrom-snoc i k s [] p busy e lt h = (
  omega (arith, e, lt),
  ground (arith, e),
  busy,
  λ j lo hi. ground (arith, h j (omega (arith, lo)) hi, e, lo, hi),
)
HoldsFrom-snoc i k s (x ∷ ss) p busy e lt (here_lt, here, taken, rest) = (
  here_lt,
  ground (arith, here, e, lt),
  taken,
  HoldsFrom-snoc (i + 1) k s ss p busy (omega (arith, e)) lt rest,
)

-- `print` puts a string behind those that wait, and drops it if five do: as a bounded queue does,
-- whatever the place of the ring in the buffer.
pub print-enqueue :
    (str : Ptr) (info : Info) (len : ℕ) (ss : List StrPtr) (p : Printer)
    → is_empty info ≡ false
    → Holds ss p
    → Holds (enqueue (entry str info len) ss) (print str info len p)
unfolding enqueue
print-enqueue str info len ss p busy (act_lt, h) = elim (Bool-cases (ltb (length ss) 5)) [
  | inl room ↦
      let k = length ss in
      let s = entry str info len in
      let first : print str info len p ≡ record p { str_buf = update p.str_buf (slot p k) s } =
        print-first str info len k p (ground (arith, room))
          (λ j lt. HoldsFrom-Taken 0 ss p h j (omega arith) (omega (arith, lt)))
          (subst (Free p) (omega arith) (HoldsFrom-Free 0 ss p h (ground (arith, room)))) in
      rw (room, first)
        (act_lt, HoldsFrom-snoc 0 k s ss p busy (omega arith) (ground (arith, room)) h)
  | inr full ↦
      let five : length ss ≡ 5 = ground (arith, full, HoldsFrom-length 0 ss p (omega arith) h) in
      let dropped =
        print-full str info len p
          (λ j lt. HoldsFrom-Taken 0 ss p h j (omega arith) (omega (arith, lt, five))) in
      rw (full, dropped) (act_lt, h)
]

-- The ring when its first entry is free and the next is typed.
pub record Advanced (p p' : Printer) : Type 0 where
  pub act_next : p'.act_string ≡ (p.act_string + 1) % 5
  pub freed : is_empty (p'.str_buf p.act_string).info ≡ true
  pub others_kept : (j : ℕ) → j ≢ p.act_string → p'.str_buf j ≡ p.str_buf j

-- An entry that is not the one that was typed is a place nearer, as it was.
nearer :
    (i : ℕ) (p p' : Printer)
    → p.act_string < 5
    → i + 1 < 5
    → Advanced p p'
    → p'.str_buf (slot p' i) ≡ p.str_buf (slot p (i + 1))
nearer i p p' act_lt lt v =
    ap p'.str_buf {x = slot p' i} {y = slot p (i + 1)} (omega (arith, v.act_next, act_lt, lt))
    ∙ v.others_kept (slot p (i + 1)) (λ e. omega (arith, e, act_lt, lt))

HoldsFrom-Advanced :
    (i : ℕ) (ss : List StrPtr) (p p' : Printer)
    → p.act_string < 5
    → Advanced p p'
    → HoldsFrom (i + 1) ss p
    → HoldsFrom i ss p'
HoldsFrom-Advanced i [] p p' act_lt v h = λ j lo hi. elim (Bool-cases (j == 4)) [
  | inl last ↦
      let four : j ≡ 4 = ground (arith, last) in
      let e : p.act_string ≡ slot p' j = omega (arith, v.act_next, act_lt, four) in
      subst (λ x. is_empty (p'.str_buf x).info ≡ true) e v.freed
  | inr before ↦
      let lt : j + 1 < 5 = omega (arith, hi, ==_false→ne j 4 before) in
      ap (λ (s : StrPtr). is_empty s.info) (nearer j p p' act_lt lt v)
      ∙ h (j + 1) (omega (arith, lo)) lt
]
HoldsFrom-Advanced i (s ∷ ss) p p' act_lt v (lt, here, busy, rest) = (
  omega (arith, lt),
  nearer i p p' act_lt lt v ∙ here,
  busy,
  HoldsFrom-Advanced (i + 1) ss p p' act_lt v rest,
)

pub Holds-Advanced :
    (s : StrPtr) (ss : List StrPtr) (p p' : Printer)
    → Advanced p p'
    → Holds (s ∷ ss) p
    → Holds ss p'
Holds-Advanced s ss p p' v (act_lt, (_, _, _, rest)) =
    (omega (arith, v.act_next), HoldsFrom-Advanced 0 ss p p' act_lt v rest)
