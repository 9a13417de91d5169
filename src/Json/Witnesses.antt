-- ===== src/Json/Witnesses.antt =====
-- The theorem on json_escape at a text with a quote and a control character.
use sdr_slc_rtld.Json.Writer.{jb_init, decimal}
use sdr_slc_rtld.Json.Written.{Holds}
use sdr_slc_rtld.Json.Printed.{emit-print}
use sdr_slc_rtld.Json.Value.{
  Value, object, array, number, null, nil, cons, member, end, print, emit, height,
}
use sdr_slc_rtld.Base.{codes, ◌≡◌, refl, arith}

abbrev sample : Value
sample = object (member (codes "a") (array (cons (number 12) (cons null nil))) end)

sample_printed : print sample ≡ codes "{\"a\":[12,null]}"
unfolding print decimal
sample_printed = refl

emit-print_example : Holds 64 (print sample) (emit sample (jb_init 64))
unfolding height
emit-print_example = emit-print sample 64 (omega arith) (omega arith)
