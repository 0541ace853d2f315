-- ===== src/Wire/Lines/Exchange/Tests.antt =====
-- A byte on the lines, at concrete exchanges.
use gpti84_plus.Base.{ℕ, zero, suc, List, [], ◌++◌, Bool, false, some, ◌≡◌, refl, arith}
use gpti84_plus.Wire.{recv_byte}
use gpti84_plus.Wire.Laws.{byte_bits, heard}
use gpti84_plus.Wire.Lines.{sender_moves, receiver_moves}
use gpti84_plus.Wire.Lines.Exchange.{
  Exchange, opening, sender_turn, receiver_turn, Flow, here, by_sender, by_receiver,
}
use gpti84_plus.Wire.Lines.Exchange.Hears.{returned_bits}
use gpti84_plus.Wire.Lines.Exchange.Sound.{returned_bits-prefix, recv_byte-returned_bits}

-- The sides take turns.
rounds : ℕ → Exchange → Exchange
rounds zero e = e
rounds (suc n) e = rounds n (receiver_turn false (sender_turn false e))

rounds-Flow : {bits : List Bool} (n : ℕ) (e : Exchange) → Flow bits e → Flow bits (rounds n e)
unfolding rounds
rounds-Flow zero e f = f
rounds-Flow (suc n) e f = rounds-Flow n _ (by_receiver false (by_sender false f))

-- 0x53 in full, and cut off in its third bit.
abbrev whole : Exchange
whole = rounds 80 (opening (byte_bits 0x53))

whole_todo : whole.todo ≡ []
unfolding rounds sender_turn receiver_turn sender_moves receiver_moves
whole_todo = refl

recv_byte-returned_bits_example :
    recv_byte (record { incoming = heard (returned_bits whole) []; acks = []; sent = [] })
    ≡ (some 0x53, record { incoming = []; acks = []; sent = [] })
recv_byte-returned_bits_example =
    recv_byte-returned_bits 0x53 [] [] [] (omega arith) (rounds-Flow 80 _ here) whole_todo

abbrev part : Exchange
part = rounds 20 (opening (byte_bits 0x53))

returned_bits-prefix_example : (rest : List Bool) × (returned_bits part ++ rest ≡ byte_bits 0x53)
returned_bits-prefix_example = returned_bits-prefix (rounds-Flow 20 _ here)
