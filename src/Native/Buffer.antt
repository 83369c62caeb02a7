-- ===== src/Native/Buffer.antt =====
-- `AlignedBuffer` (`src/native_vector.h`): a buffer on the stack or on the heap. The constructors are an
-- `init` of the default object, and the destructor is `reset`. `live` counts the blocks of the heap
-- that the object has taken and not given back.
use vsql_vector.Base.{
  ℕ, ◌+◌, ◌-◌, ◌≡◌, refl, Bool, true, false, ◌&&◌, List, [], ◌∷◌, leb, if◌then◌else◌, arith,
  Bool-cases, inl, inr,
}

-- What `ptr_` points to.
pub data Place : Type 0 where
  null : Place
  stack : Place
  heap : Place

pub record AlignedBuffer : Type 0 where
  pub ptr : Place
  pub size : ℕ
  pub alignment : ℕ
  pub on_heap : Bool
  pub live : ℕ

abbrev pub default_buffer : AlignedBuffer
default_buffer = record { ptr = null; size = 0; alignment = 0; on_heap = false; live = 0 }

unfoldable pub is_initialized : AlignedBuffer → Bool
is_initialized b = elim b.ptr [ null ↦ false | stack ↦ true | heap ↦ true ]

unfoldable pub reset : AlignedBuffer → AlignedBuffer
unfolding is_initialized
reset b = record {
  ptr = null;
  size = 0;
  alignment = 0;
  on_heap = false;
  live = if b.on_heap && is_initialized b then b.live - 1 else b.live;
}

-- `got` is whether the heap has a block for the request.
unfoldable pub init :
    (stack_bytes max_align : ℕ)
    → (got : Bool) → (size alignment : ℕ) → AlignedBuffer
    → AlignedBuffer × Bool
unfolding reset
init stack_bytes max_align got size alignment b =
    let b1 = reset b in
    let b2 = record b1 { ptr = stack; size = size; alignment = alignment } in
    let b3 = record b1 {
      ptr = heap;
      size = size;
      alignment = alignment;
      on_heap = true;
      live = b1.live + 1;
    } in
    if leb size stack_bytes && leb alignment max_align
    then (b2, true)
    else (if got then (b3, true) else (b1, false))

-- The calls on a buffer.
pub data Call : Type 0 where
  call_init : (got : Bool) → (size alignment : ℕ) → Call
  call_reset : Call

unfoldable pub call : (stack_bytes max_align : ℕ) → Call → AlignedBuffer → AlignedBuffer
call stack_bytes max_align (call_init got size alignment) b =
    (init stack_bytes max_align got size alignment b).0
call stack_bytes max_align call_reset b = reset b

unfoldable pub calls : (stack_bytes max_align : ℕ) → List Call → AlignedBuffer → AlignedBuffer
calls stack_bytes max_align [] b = b
calls stack_bytes max_align (c ∷ cs) b =
    calls stack_bytes max_align cs (call stack_bytes max_align c b)

-- The buffer owns one block if it is on the heap, and none otherwise.
pub record Owns (b : AlignedBuffer) : Type 0 where
  pub owned : b.live ≡ (if b.on_heap then 1 else 0)
  pub initialized : b.on_heap ≡ true → is_initialized b ≡ true

Owns-reset : (b : AlignedBuffer) → Owns b → Owns (reset b)
unfolding reset
Owns-reset b o = record {
  owned = elim (Bool-cases b.on_heap) [
    | inl yes_heap ↦ (let i = o.initialized yes_heap in let e = o.owned in ground arith)
    | inr no_heap ↦ (let e = o.owned in ground arith)
  ];
  initialized = λ h. cc;
}

Owns-init :
    (stack_bytes max_align : ℕ) (got : Bool) (size alignment : ℕ) (b : AlignedBuffer)
    → Owns b
    → Owns (init stack_bytes max_align got size alignment b).0
unfolding init is_initialized reset
Owns-init stack_bytes max_align got size alignment b o =
    let r = Owns-reset b o in
    let l : (reset b).live ≡ 0 = r.owned in
    elim (Bool-cases (leb size stack_bytes && leb alignment max_align)) [
      | inl small ↦ rw (small, init) (record { owned = l; initialized = λ h. refl })
      | inr large ↦ elim (Bool-cases got) [
        | inl taken ↦
            rw (large, taken, init) (record { owned = omega arith; initialized = λ h. refl })
        | inr refused ↦ rw (large, refused, init) r
      ]
    ]

Owns-call :
    (stack_bytes max_align : ℕ) (c : Call) (b : AlignedBuffer)
    → Owns b
    → Owns (call stack_bytes max_align c b)
unfolding call
Owns-call stack_bytes max_align call_reset b o = Owns-reset b o
Owns-call stack_bytes max_align (call_init got size alignment) b o =
    Owns-init stack_bytes max_align got size alignment b o

Owns-calls :
    (stack_bytes max_align : ℕ) (cs : List Call) (b : AlignedBuffer)
    → Owns b
    → Owns (calls stack_bytes max_align cs b)
unfolding calls
Owns-calls stack_bytes max_align [] b o = o
Owns-calls stack_bytes max_align (c ∷ cs) b o =
    Owns-calls stack_bytes max_align cs (call stack_bytes max_align c b)
      (Owns-call stack_bytes max_align c b o)

-- After any sequence of calls of init and reset a buffer owns one block of the heap if it is on
-- the heap, and then it is initialized, and no block otherwise; a last reset, as in the
-- destructor, leaves none.
pub calls-Owns :
    (stack_bytes max_align : ℕ) (cs : List Call)
    → Owns (calls stack_bytes max_align cs default_buffer)
      × ((reset (calls stack_bytes max_align cs default_buffer)).live ≡ 0)
unfolding reset
calls-Owns stack_bytes max_align cs =
    let o =
      Owns-calls stack_bytes max_align cs default_buffer
        (record { owned = refl; initialized = λ h. cc }) in
    (o, (Owns-reset (calls stack_bytes max_align cs default_buffer) o).owned)
