-- ===== src/Net/WebSocket/Writes.antt =====
-- A message leaves the reads to come alone.
use gpti84_plus.Base.{ℕ, suc, ◌≡◌, ◌∙◌, refl, List, [], ◌∷◌, Bool, true, false}
use gpti84_plus.Base.Bytes.{Bytes}
use gpti84_plus.Net.WebSocket.{
  Wire, write, write_answer, and_then, write_body, apply_mask, send_message,
}

write_answer-answers :
    (rs : List Bool) (bs : Bytes) (w : Wire) → (write_answer rs bs w).1.answers ≡ w.answers
write_answer-answers [] bs w = refl
write_answer-answers (false ∷ rs) bs w = refl
write_answer-answers (true ∷ rs) bs w = refl

write_body-answers : (bs : Bytes) (w : Wire) → (write_body bs w).1.answers ≡ w.answers
unfolding write
write_body-answers [] w = refl
write_body-answers (c ∷ cs) w = write_answer-answers w.raises (c ∷ cs) w

and_then-answers :
    (bs : Bytes) (r : Bool × Wire) → (and_then (write_body bs) r).1.answers ≡ r.1.answers
and_then-answers bs (true, w) = write_body-answers bs w
and_then-answers bs (false, w) = refl

pub send_message-answers :
    (masks : ℕ → Bytes) (p : Bytes) (opcode : ℕ) (w : Wire)
    → (send_message masks p opcode w).1.answers ≡ w.answers
unfolding send_message write
send_message-answers masks p opcode w =
    and_then-answers (apply_mask (masks w.drawn) 0 p) (write _ (record w { drawn = suc w.drawn }))
    ∙ write_answer-answers w.raises _ (record w { drawn = suc w.drawn })
