-- ===== src/Cob/Vm/State.antt =====
-- The state of src/cob/vm.h: pieces, threads, the machine. An `int` is its 32-bit pattern.
use ta_engine.Common.{
  ℕ, zero, suc, ◌+◌, ◌-◌, Bool, true, false, List, [], ◌∷◌, ◌++◌, if◌then◌else◌, length, get_or,
  set, replicate,
}
use ta_engine.Common.Int32.{minus_one}
use ta_engine.Cob.Vm.Env.{Env}

-- A script is its entry; `numStatics`, the code and the number of pieces are the rest of the file.
pub record File : Type 0 where
  pub scripts : List (List ℕ × ℕ)
  pub num_pieces : ℕ
  pub code : List ℕ
  pub num_statics : ℕ

-- What a hook is told.
pub data Note : Type 0 where
  on_emit_sfx on_explode : ℕ → ℕ → Note
  on_play_sound : ℕ → Note
  on_set_unit_value : ℕ → ℕ → Note

pub data Rng : Type 0 where
  xorshift : ℕ → Rng
  mersenne_at : ℕ → Rng

module _ (E : Env) where
  open E use {F, zero_f}

  -- One of the three entries of each array of `PieceState`.
  pub record Axis : Type 0 where
    pub move : F
    pub rot : F
    pub spin : F
    pub spin_target : F
    pub spin_accel : F
    pub move_target : F
    pub move_speed : F
    pub moving : Bool
    pub rot_target : F
    pub rot_speed : F
    pub turning : Bool

  pub record Piece : Type 0 where
    pub visible : Bool
    pub axes : List Axis

  -- `pc` is a word offset; the head of `stack` is its back; -1 in `wait_piece` is no wait.
  pub record Thread : Type 0 where
    pub pc : ℕ
    pub stack : List ℕ
    pub locals : List ℕ
    pub sleep_until : F
    pub wait_piece : ℕ
    pub wait_axis : ℕ
    pub wait_turn : Bool
    pub signal_mask : ℕ
    pub dead : Bool
    pub call_stack : List ℕ

  -- `notes` is what the hooks that answer nothing are told where they are set, the oldest first.
  pub record Machine : Type 0 where
    pub file : File
    pub statics : List ℕ
    pub last_return : ℕ
    pub last_locals : List ℕ
    pub pieces : List Piece
    pub threads : List Thread
    pub pending : List Thread
    pub ticking : Bool
    pub any_motion : Bool
    pub now : F
    pub rng : Rng
    pub notes : List Note

  unfoldable pub rest_axis : Axis
  rest_axis = record {
    move = zero_f;
    rot = zero_f;
    spin = zero_f;
    spin_target = zero_f;
    spin_accel = zero_f;
    move_target = zero_f;
    move_speed = zero_f;
    moving = false;
    rot_target = zero_f;
    rot_speed = zero_f;
    turning = false;
  }

  unfoldable pub rest_piece : Piece
  rest_piece = record { visible = true; axes = replicate 3 rest_axis }

  -- A `Thread t;` that starts at `entry` with its locals at least sixteen.
  unfoldable pub new_thread : ℕ → List ℕ → ℕ → Thread
  new_thread entry args mask = record {
    pc = entry;
    stack = [];
    locals = args ++ replicate (16 - length args) 0;
    sleep_until = zero_f;
    wait_piece = minus_one;
    wait_axis = 0;
    wait_turn = false;
    signal_mask = mask;
    dead = false;
    call_stack = [];
  }

  -- `Vm::Vm`
  unfoldable pub new_machine : File → Bool → Machine
  unfolding rest_piece rest_axis
  new_machine file deterministic = record {
    file = file;
    statics = replicate (file.num_statics + 8) 0;
    last_return = 0;
    last_locals = [];
    pieces = replicate file.num_pieces rest_piece;
    threads = [];
    pending = [];
    ticking = false;
    any_motion = false;
    now = zero_f;
    rng = if deterministic then mersenne_at 0 else xorshift 12345;
    notes = [];
  }

  -- A vector resized so that `i` is an index of it, filled with zeros.
  unfoldable pub room_for : ℕ → List ℕ → List ℕ
  room_for i xs = xs ++ replicate (i + 1 - length xs) 0

  -- `Vm::setStatic`
  unfoldable pub set_static : ℕ → ℕ → Machine → Machine
  unfolding room_for
  set_static i v m = record m { statics = set (room_for i m.statics) i v }

  -- `Vm::getStatic`
  unfoldable pub get_static : ℕ → Machine → ℕ
  get_static i m = get_or m.statics i 0

  -- `Vm::reset`
  unfoldable pub reset : Machine → Machine
  reset m = record m { threads = [] }

  unfoldable pub push : ℕ → Thread → Thread
  push v t = record t { stack = v ∷ t.stack }

  unfoldable pub top : List ℕ → ℕ
  top [] = 0
  top (v ∷ s) = v

  unfoldable pub rest : List ℕ → List ℕ
  rest [] = []
  rest (v ∷ s) = s

  -- `Vm::pop`; an empty stack gives 0.
  unfoldable pub pop : Thread → ℕ × Thread
  unfolding top rest
  pop t = (top t.stack, record t { stack = rest t.stack })

  -- `count` pops, the first popped at the end: `for (i = n - 1; i >= 0; --i) params[i] = pop(t)`.
  unfoldable pub pop_params : ℕ → Thread → List ℕ → List ℕ × Thread
  unfolding pop
  pop_params zero t acc = (acc, t)
  pop_params (suc n) t acc = let (v, t') = pop t in pop_params n t' (v ∷ acc)

  -- Where `tick` runs, a new thread waits for its end.
  unfoldable pub add_thread : Thread → Machine → Machine
  add_thread t m =
      if m.ticking
      then record m { pending = m.pending ++ t ∷ [] }
      else record m { threads = m.threads ++ t ∷ [] }

  unfoldable pub tell : Note → Machine → Machine
  tell n m = record m { notes = m.notes ++ n ∷ [] }
