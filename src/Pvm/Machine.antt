-- ===== src/Pvm/Machine.antt =====
-- What every instruction keeps: the program and the gas, and the form of the machine. Here are the
-- predicates and the lemmas on the handlers' combinators.
pub mod Decoded
pub mod Words
pub mod Heap
pub mod Operands
pub mod Accesses
pub mod Registers
pub mod Jumps
use jam_protocol.Base.{
  ℕ, ◌+◌, ◌%◌, ◌^◌, ◌<◌, ◌≡◌, refl, sym, subst, ◌∙◌, inl, inr, Option, none, some, arith, ◌==◌,
  length-set, All-set, All-get_or, Bool-cases, Bool, true, false, if◌then◌else◌,
}
use jam_protocol.Base.Words.{IsU64}
use jam_protocol.Pvm.State.{
  Go, done, error, crash, ◌>>=◌, Interp, Out, Memory, IsMemory, IsMachine, reg, set_reg, out,
  exit_continue,
}
use jam_protocol.Pvm.Instr.{on_error, write, stored, loaded}

-- `P` holds of the value, if there is one.
abbrev pub Post {ℓ} : {A : Type ℓ} → (A → Type 0) → Go A → Type 0
Post P (done a) = P a
Post P error = Unit
Post P crash = Unit

pub Post-bind {ℓ κ} :
    {A : Type ℓ} {B : Type κ} (P : A → Type 0) (Q : B → Type 0) (m : Go A) (f : A → Go B)
    → Post P m
    → ((a : A) → P a → Post Q (f a))
    → Post Q (m >>= f)
Post-bind P Q (done a) f p h = h a p
Post-bind P Q error f p h = tt
Post-bind P Q crash f p h = tt

-- What a handler may do to the state it is given.
pub record IsStep (s : Interp) (o : Out) : Type 0 where
  pub program : o.interp.program ≡ s.program
  pub gas : o.interp.gas ≡ s.gas
  pub machine : IsMachine o.interp

abbrev pub Steps : Interp → Option Out → Type 0
Steps s none = Unit
Steps s (some o) = IsStep s o

pub reg-IsU64 : (s : Interp) (r : ℕ) → IsMachine s → IsU64 (reg s r)
reg-IsU64 s r ok = All-get_or IsU64 s.registers r 0 (omega arith) ok.words

pub set_reg-IsMachine : (s : Interp) (r v : ℕ) → IsMachine s → IsU64 v → IsMachine (set_reg s r v)
set_reg-IsMachine s r v ok word = record {
  count = length-set s.registers r v ∙ ok.count;
  words = All-set IsU64 s.registers r v word ok.words;
  memory = ok.memory;
  heap = ok.heap;
  code = ok.code;
}

pub out-Steps : (s : Interp) (reason pc : ℕ) → IsMachine s → Steps s (out s reason pc)
out-Steps s reason pc ok = record { program = refl; gas = refl; machine = ok }

pub set_reg-Steps :
    (s : Interp) (r v reason pc : ℕ)
    → IsMachine s
    → IsU64 v
    → Steps s (out (set_reg s r v) reason pc)
set_reg-Steps s r v reason pc ok word = record {
  program = refl;
  gas = refl;
  machine = set_reg-IsMachine s r v ok word;
}

pub write-Steps : (s : Interp) (pc r v : ℕ) → IsMachine s → IsU64 v → Steps s (write s pc r v)
unfolding write
write-Steps s pc r v ok word = set_reg-Steps s r v exit_continue pc ok word

pub on_error-Steps {ℓ} :
    {A : Type ℓ} (P : A → Type 0) (s : Interp) (pc reason : ℕ) (g : Go A) (k : A → Option Out)
    → IsMachine s
    → Post P g
    → ((a : A) → P a → Steps s (k a))
    → Steps s (on_error s pc reason g k)
unfolding on_error
on_error-Steps P s pc reason (done a) k ok p h = h a p
on_error-Steps P s pc reason error k ok p h = out-Steps s reason pc ok
on_error-Steps P s pc reason crash k ok p h = tt

pub set_memory-IsMachine :
    (s : Interp) (m : Memory)
    → IsMachine s
    → IsMemory m
    → IsU64 m.heap_pointer
    → IsMachine (record s { memory = m })
set_memory-IsMachine s m ok memory heap = record {
  count = ok.count;
  words = ok.words;
  memory = memory;
  heap = heap;
  code = ok.code;
}

pub stored-Steps :
    (s : Interp) (pc : ℕ) (r : Memory × ℕ)
    → IsMachine s
    → IsMemory r.0
    → r.0.heap_pointer ≡ s.memory.heap_pointer
    → Steps s (stored s pc r)
unfolding stored
stored-Steps s pc r ok memory heap = record {
  program = refl;
  gas = refl;
  machine = set_memory-IsMachine s r.0 ok memory (subst IsU64 (sym heap) ok.heap);
}

pub loaded-Steps :
    (s : Interp) (pc r : ℕ) (f : ℕ → ℕ) (l : ℕ × ℕ)
    → IsMachine s
    → IsU64 (f l.0)
    → Steps s (loaded s pc r f l)
unfolding loaded
loaded-Steps s pc r f l ok word = elim (Bool-cases (l.1 == exit_continue)) [
  | inl good ↦ rw good (set_reg-Steps s r (f l.0) exit_continue pc ok word)
  | inr bad ↦ rw bad (out-Steps s l.1 pc ok)
]

pub if-Steps :
    (s : Interp) (b : Bool) (x y : Option Out)
    → Steps s x
    → Steps s y
    → Steps s (if b then x else y)
if-Steps s true x y p q = p
if-Steps s false x y p q = q
