-- ===== src/Print/Queue.antt =====
-- Where `print` puts a string: the first free entry from the one that is being typed on.
use memtype.Base.{
  ℕ, zero, suc, ◌+◌, ◌%◌, ◌≤◌, ◌<◌, ◌≡◌, ◌∙◌, refl, ap, sym, subst, true, false, update, arith,
}
use memtype.State.{Printer, StrPtr, Info, Ptr}
use memtype.Print.{strbuf_size, sizeof_str_buf, is_empty, entry, print_loop, print}

-- Whether the entry `i` places behind the one that is being typed is free.
abbrev pub slot : Printer → ℕ → ℕ
slot p i = (p.act_string + i) % strbuf_size

abbrev pub Free : Printer → ℕ → Type 0
Free p i = is_empty (p.str_buf (slot p i)).info ≡ true

abbrev pub Taken : Printer → ℕ → Type 0
Taken p i = is_empty (p.str_buf (slot p i)).info ≡ false

print_loop-Free :
    (n i : ℕ) (e : StrPtr) (p : Printer)
    → Free p i
    → print_loop (suc n) i e p ≡ record p { str_buf = update p.str_buf (slot p i) e }
unfolding print_loop
print_loop-Free n i e p h = ground arith

print_loop-Taken :
    (n i : ℕ) (e : StrPtr) (p : Printer)
    → Taken p i
    → print_loop (suc n) i e p ≡ print_loop n (i + 1) e p
unfolding print_loop
print_loop-Taken n i e p h = ground arith

print_loop-first :
    (n k i : ℕ) (e : StrPtr) (p : Printer)
    → k < n
    → ((j : ℕ) → i ≤ j → j < i + k → Taken p j)
    → Free p (i + k)
    → print_loop n i e p ≡ record p { str_buf = update p.str_buf (slot p (i + k)) e }
print_loop-first zero k i e p h before free = absurd (omega arith)
print_loop-first (suc n) zero i e p h before free =
    let z : i + 0 ≡ i = omega arith in rw z (print_loop-Free n i e p (rw z at free))
print_loop-first (suc n) (suc k) i e p h before free =
    let z : i + suc k ≡ i + 1 + k = omega arith in
    print_loop-Taken n i e p (before i (omega arith) (omega arith))
    ∙ rw z (
        print_loop-first n k (i + 1) e p (omega arith)
          (λ j lo hi. before j (omega arith) (omega arith)) (rw z at free))

print_loop-none :
    (n i : ℕ) (e : StrPtr) (p : Printer) → ((j : ℕ) → Taken p j) → print_loop n i e p ≡ p
unfolding print_loop
print_loop-none zero i e p h = refl
print_loop-none (suc n) i e p h = print_loop-Taken n i e p (h i) ∙ print_loop-none n (i + 1) e p h

-- A string goes into the first free entry of the ring, counted from the one that is being typed, and
-- nothing else changes.
pub print-first :
    (str : Ptr) (info : Info) (len k : ℕ) (p : Printer)
    → k < 5
    → ((j : ℕ) → j < k → Taken p j)
    → Free p k
    → print str info len p ≡ record p { str_buf = update p.str_buf (slot p k) (entry str info len) }
unfolding print
print-first str info len k p h before free =
    let e = entry str info len in
    let z : 0 + k ≡ k = omega arith in
    print_loop-first sizeof_str_buf k 0 e p (omega arith) (λ j lo hi. before j (omega arith))
      (subst (Free p) (sym z) free)
    ∙ ap (λ x. record p { str_buf = update p.str_buf (slot p x) e }) z

-- A full ring drops the string: nothing changes.
pub print-full :
    (str : Ptr) (info : Info) (len : ℕ) (p : Printer)
    → ((j : ℕ) → j < 5 → Taken p j)
    → print str info len p ≡ p
unfolding print
print-full str info len p h =
    print_loop-none sizeof_str_buf 0 (entry str info len) p (λ j.
      subst (λ x. is_empty (p.str_buf x).info ≡ false) (omega arith) (h (j % 5) (omega arith)))

print_loop-same :
    (n cont : ℕ) (e : StrPtr) (p : Printer)
    → print_loop n cont e p ≡ record p { str_buf = (print_loop n cont e p).str_buf }
unfolding print_loop
print_loop-same zero cont e p = refl
print_loop-same (suc n) cont e p = ground (arith, print_loop-same n (cont + 1) e p)

-- print changes the queue and nothing else.
pub print-same :
    (str : Ptr) (info : Info) (len : ℕ) (p : Printer)
    → print str info len p ≡ record p { str_buf = (print str info len p).str_buf }
unfolding print
print-same str info len p = print_loop-same 25 0 (entry str info len) p
