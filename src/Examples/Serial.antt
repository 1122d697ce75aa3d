-- ===== src/Examples/Serial.antt =====
-- drivers/serial.c and lib/log.c on two devices, and drivers/fb.c.
use lbos.Base.{◌-◌, ◌^◌, ap, ◌∙◌, ℕ, zero, suc, ◌+◌, ◌≡◌, refl, arith, some, List, [], ◌∷◌}
use lbos.Text.{Text, codes}
use lbos.Serial.Wait
use lbos.Serial.{
  Line, wait_loop, serial_write_byte, serial_write, serial_com1_base, num_to_decimal, decimal_loop,
}
use lbos.Serial.Output
use lbos.Serial.Digits
use lbos.Log.{log_write}
use lbos.Log.Pieces.{Piece, literal, decimal, string, colour, all_source}
use lbos.Log.Sent.{sent, Answers}
use lbos.Log.Written

-- A transmitter that is empty at every fourth read.
abbrev slow : ℕ → ℕ
slow zero = 0
slow (suc zero) = 0
slow (suc (suc zero)) = 0
slow (suc (suc (suc zero))) = 0x60
slow (suc (suc (suc (suc n)))) = slow n

-- A transmitter that is never empty.
abbrev fresh : Line
fresh = record { reads = 0; ports = [] }

sends_a : (serial_write_byte slow serial_com1_base 97 fresh).1.ports ≡ (0x3f8, 97) ∷ []
unfolding serial_write_byte wait_loop
sends_a = refl

slow-Answers : Answers slow
slow-Answers zero = (3, omega arith, refl)
slow-Answers (suc zero) = (2, omega arith, refl)
slow-Answers (suc (suc zero)) = (1, omega arith, refl)
slow-Answers (suc (suc (suc zero))) = (0, omega arith, refl)
slow-Answers (suc (suc (suc (suc n)))) =
    let (k, lt, now) = slow-Answers n in
    let e : suc (suc (suc (suc n))) + k ≡ suc (suc (suc (suc (n + k)))) = omega arith in
    (k, lt, ap (Wait.ready_at slow) e ∙ now)

serial_write-whole_example :
    ((serial_write slow (some (codes "hi")) 0 fresh).0 ≡ 2)
    × ((serial_write slow (some (codes "hi")) 0 fresh).1.ports ≡ (0x3f8, 104) ∷ (0x3f8, 105) ∷ [])
serial_write-whole_example = Output.serial_write-whole slow slow-Answers (codes "hi") 0 fresh

least_value : num_to_decimal (2 ^ 31) ≡ codes "-"
unfolding num_to_decimal decimal_loop
least_value = refl

minus_forty_two : num_to_decimal (2 ^ 32 - 42) ≡ codes "-42"
unfolding num_to_decimal decimal_loop
minus_forty_two = refl

num_to_decimal-Spells_example : Digits.Spells (2 ^ 32 - 42) (num_to_decimal (2 ^ 32 - 42))
num_to_decimal-Spells_example = Digits.num_to_decimal-Spells (2 ^ 32 - 42) (omega arith)

abbrev strings : ℕ → Text
strings n = codes "disk"

-- The format of LOG_INFO("%s: %d").
abbrev message : List Piece
message =
    colour (codes "[32") ∷ string ∷ literal 58 ∷ literal 32 ∷ decimal ∷ colour (codes "[0") ∷ []

abbrev arguments : ℕ → ℕ
arguments zero = 0x1000
arguments (suc n) = 7

log_write-written_example :
    (s' : Line) × (log_write slow strings 1 arguments 1 (all_source message) fresh ≡ some s')
    × (s'.ports ≡ sent (Written.written slow strings slow-Answers arguments 1 message))
log_write-written_example =
    Written.log_write-written slow strings slow-Answers 1 arguments 1 message fresh refl
