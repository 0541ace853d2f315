-- ===== src/Transfer/Shortcuts.antt =====
-- The shortcuts at the end of src/transfer.py. The numbers that they send are natural numbers below
-- 10 ^ 14 here.
use gpti84_plus.Base.{ℕ, List, Option, none, some, Bool, if◌then◌else◌}
use gpti84_plus.Base.Bytes.{Bytes}
use gpti84_plus.VarTypes.{
  t_real, t_list, t_prog, t_prog_locked, list_name_82, real_name, prog_name, encode_natural,
  encode_natural_list,
}
use gpti84_plus.Transfer.{Call, send_var, delete_var, req_var}

-- A name that raises a `ValueError` ends the call.
abbrev with_name : {A : Type 0} → Option Bytes → (Bytes → Call A) → Call A
with_name none f l = none
with_name (some name8) f l = f name8 l

pub get_l1 : ℕ → Call (Bytes × Bytes)
get_l1 calc_machine = with_name (list_name_82 0) (λ name8. req_var t_list name8 calc_machine)

pub put_list : List ℕ → ℕ → Call (Unit {0})
unfolding encode_natural_list
put_list values calc_machine =
    with_name (list_name_82 0)
      (λ name8. send_var t_list name8 (encode_natural_list values) calc_machine)

-- `send_var` speaks to a TI-82 if it is not told otherwise.
pub put_l1 : List ℕ → Call (Unit {0})
unfolding put_list
put_l1 values = put_list values 0x82

pub put_l1_83p : List ℕ → Call (Unit {0})
unfolding put_list
put_l1_83p values = put_list values 0x73

pub put_real : Bytes → ℕ → ℕ → Call (Unit {0})
put_real letter value calc_machine =
    with_name (real_name letter)
      (λ name8. send_var t_real name8 (encode_natural value) calc_machine)

pub put_real_83p : Bytes → ℕ → Call (Unit {0})
unfolding put_real
put_real_83p letter value = put_real letter value 0x73

unfoldable pub put_prog : Bytes → Bytes → Bool → ℕ → Call (Unit {0})
put_prog name payload locked calc_machine =
    with_name (prog_name name)
      (λ name8. send_var (if locked then t_prog_locked else t_prog) name8 payload calc_machine)

unfoldable pub put_prog_83p : Bytes → Bytes → Bool → Call (Unit {0})
unfolding put_prog
put_prog_83p name payload locked = put_prog name payload locked 0x73

pub del_real_83p : Bytes → Call (Unit {0})
del_real_83p letter = with_name (real_name letter) (λ name8. delete_var t_real name8 0x73)

pub del_l1_83p : Call (Unit {0})
del_l1_83p = with_name (list_name_82 0) (λ name8. delete_var t_list name8 0x73)
