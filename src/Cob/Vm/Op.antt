-- ===== src/Cob/Vm/Op.antt =====
-- The opcodes that `Vm::run` in src/cob/vm.cpp dispatches on, and its arithmetic on `int32_t`.
-- `+ - *` wrap, as on every target of the build; what the hardware traps on or C++ leaves undefined
-- (a division that overflows, a shift by 32 or more) has no value.
use Prim.Native.Nat.{bit_and, bit_or, bit_xor}
use ta_engine.Common.{
  ℕ, ◌^◌, Bool, true, false, not, ◌&&◌, ◌||◌, Option, none, some, List, [], ◌∷◌, ltb, ◌==◌,
  if◌then◌else◌,
}
use ta_engine.Common.Int32.{
  minus_one, add32, sub32, mul32, div32, mod32, shl32, shr32, lt32, bool32,
}

pub data Bin : Type 0 where
  add sub mul div band bor bxor shl shr rem lt le gt ge eq ne land lor : Bin

pub data Op : Type 0 where
  push_const push_local push_static create_local pop_local pop_static pop_stack : Op
  binary : Bin → Op
  bnot lnot rand get_unit_value get query_one query_none : Op
  start_script call_script skip_call jump ret jump_if_false signal set_mask : Op
  move turn : Bool → Op
  spin stop_spin show hide cosmetic emit_sfx explode play_sound engine_cmd map_command : Op
  set_unit_value attach drop_unit : Op
  wait : Bool → Op
  sleep : Op

abbrev pub op_table : List (ℕ × Op)
op_table =
    (0x10021001, push_const)
    ∷ (0x10021002, push_local)
    ∷ (0x10021004, push_static)
    ∷ (0x10022000, create_local)
    ∷ (0x10023002, pop_local)
    ∷ (0x10023004, pop_static)
    ∷ (0x10024000, pop_stack)
    ∷ (0x10031000, binary add)
    ∷ (0x10032000, binary sub)
    ∷ (0x10033000, binary mul)
    ∷ (0x10034000, binary div)
    ∷ (0x10035000, binary band)
    ∷ (0x10036000, binary bor)
    ∷ (0x10037000, binary bxor)
    ∷ (0x10059000, binary bxor)
    ∷ (0x10038000, bnot)
    ∷ (0x10039000, binary shl)
    ∷ (0x1003A000, binary shr)
    ∷ (0x1003B000, binary rem)
    ∷ (0x10041000, rand)
    ∷ (0x10042000, get_unit_value)
    ∷ (0x10043000, get)
    ∷ (0x10044000, query_one)
    ∷ (0x10045000, query_none)
    ∷ (0x10051000, binary lt)
    ∷ (0x10052000, binary le)
    ∷ (0x10053000, binary gt)
    ∷ (0x10054000, binary ge)
    ∷ (0x10055000, binary eq)
    ∷ (0x10056000, binary ne)
    ∷ (0x10057000, binary land)
    ∷ (0x10058000, binary lor)
    ∷ (0x1005A000, lnot)
    ∷ (0x10061000, start_script)
    ∷ (0x10062000, call_script)
    ∷ (0x10063000, skip_call)
    ∷ (0x10064000, jump)
    ∷ (0x10065000, ret)
    ∷ (0x10066000, jump_if_false)
    ∷ (0x10067000, signal)
    ∷ (0x10068000, set_mask)
    ∷ (0x10001000, move false)
    ∷ (0x1000B000, move true)
    ∷ (0x10002000, turn false)
    ∷ (0x1000C000, turn true)
    ∷ (0x10003000, spin)
    ∷ (0x10004000, stop_spin)
    ∷ (0x10005000, show)
    ∷ (0x10006000, hide)
    ∷ (0x10007000, cosmetic)
    ∷ (0x10008000, cosmetic)
    ∷ (0x10009000, cosmetic)
    ∷ (0x1000A000, cosmetic)
    ∷ (0x1000D000, cosmetic)
    ∷ (0x1000E000, cosmetic)
    ∷ (0x10075000, cosmetic)
    ∷ (0x1000F000, emit_sfx)
    ∷ (0x10071000, explode)
    ∷ (0x10072000, play_sound)
    ∷ (0x10074000, engine_cmd)
    ∷ (0x10073000, map_command)
    ∷ (0x10082000, set_unit_value)
    ∷ (0x10083000, attach)
    ∷ (0x10084000, drop_unit)
    ∷ (0x10011000, wait true)
    ∷ (0x10012000, wait false)
    ∷ (0x10013000, sleep)
    ∷ []

unfoldable pub find_op : ℕ → List (ℕ × Op) → Option Op
find_op code [] = none
find_op code ((c, op) ∷ table) = if code == c then some op else find_op code table

-- The `switch`; `none` is its default.
unfoldable pub decode : ℕ → Option Op
unfolding find_op
decode code = find_op code op_table

abbrev pub int_min : ℕ
int_min = 2 ^ 31

-- `a op b`, with `b` popped first.
unfoldable pub eval_bin : Bin → ℕ → ℕ → Option ℕ
eval_bin add a b = some (add32 a b)
eval_bin sub a b = some (sub32 a b)
eval_bin mul a b = some (mul32 a b)
eval_bin div a b =
    if b == 0 then some 0 else (if a == int_min && b == minus_one then none else some (div32 a b))
eval_bin rem a b =
    if b == 0 then some 0 else (if a == int_min && b == minus_one then none else some (mod32 a b))
eval_bin band a b = some (bit_and a b)
eval_bin bor a b = some (bit_or a b)
eval_bin bxor a b = some (bit_xor a b)
eval_bin shl a b = if ltb b 32 then some (shl32 a b) else none
eval_bin shr a b = if ltb b 32 then some (shr32 a b) else none
eval_bin lt a b = some (bool32 (lt32 a b))
eval_bin le a b = some (bool32 (not (lt32 b a)))
eval_bin gt a b = some (bool32 (lt32 b a))
eval_bin ge a b = some (bool32 (not (lt32 a b)))
eval_bin eq a b = some (bool32 (a == b))
eval_bin ne a b = some (bool32 (not (a == b)))
eval_bin land a b = some (bool32 (not (a == 0) && not (b == 0)))
eval_bin lor a b = some (bool32 (not (a == 0) || not (b == 0)))
