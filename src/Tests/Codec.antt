-- ===== src/Tests/Codec.antt =====
-- A JSON codec to compute with: a value is written as the instructions of a stack machine, of ten
-- bytes each, and read by running them.
use trustplane_auth_sdk_pyth.Base.{
  ℕ, ◌+◌, ◌*◌, ◌/◌, ◌%◌, ◌<◌, ◌^◌, ◌≡◌, refl, ap, ap₂, ◌∙◌, Bool, true, false, List, [], ◌∷◌, ◌++◌,
  arith, All, All-append, Text, Bytes, ◌==◌, if◌then◌else◌, Result, ok, err,
}
use trustplane_auth_sdk_pyth.Base.Int.{pos, negsuc}
use trustplane_auth_sdk_pyth.Text.{codes}
use trustplane_auth_sdk_pyth.Text.Utf8.{IsScalar}
use trustplane_auth_sdk_pyth.Json.{
  Json, null, bool, int, float, str, list, dict, Items, nil, cons, Fields, end, field, IsExact,
  AreExact, HoldsExact,
}

data Cell : Type 0 where
  value : Json → Cell
  text : Text → Cell
  items : Items → Cell
  fields : Fields → Cell

data Op : Type 0 where
  put_null : Op
  put_bool : Op
  put_pos : Op
  put_negsuc : Op
  put_text : Op
  add_char : Op
  end_text : Op
  put_items : Op
  add_item : Op
  end_items : Op
  put_fields : Op
  add_field : Op
  end_fields : Op

-- An instruction and its number.
data Step : Type 0 where
  step : Op → ℕ → Step

apply : Op → ℕ → List Cell → List Cell
apply put_null n st = value null ∷ st
apply put_bool n st = value (bool (n == 1)) ∷ st
apply put_pos n st = value (int (pos n)) ∷ st
apply put_negsuc n st = value (int (negsuc n)) ∷ st
apply put_text n st = text [] ∷ st
apply add_char n (text s ∷ st) = text (n ∷ s) ∷ st
apply end_text n (text s ∷ st) = value (str s) ∷ st
apply put_items n st = items nil ∷ st
apply add_item n (value v ∷ items r ∷ st) = items (cons v r) ∷ st
apply end_items n (items r ∷ st) = value (list r) ∷ st
apply put_fields n st = fields end ∷ st
apply add_field n (value v ∷ text k ∷ fields r ∷ st) = fields (field k v r) ∷ st
apply end_fields n (fields r ∷ st) = value (dict r) ∷ st
apply _ n st = st

run : List Step → List Cell → List Cell
unfolding apply
run [] st = st
run (step op n ∷ rest) st = run rest (apply op n st)

abbrev dump_text : Text → List Step
dump_text [] = step put_text 0 ∷ []
dump_text (c ∷ s) = dump_text s ++ step add_char c ∷ []

abbrev bit : Bool → ℕ
bit true = 1
bit false = 0

unfoldable mutual
  dump : Json → List Step
  dump null = step put_null 0 ∷ []
  dump (bool b) = step put_bool (bit b) ∷ []
  dump (int (pos n)) = step put_pos n ∷ []
  dump (int (negsuc n)) = step put_negsuc n ∷ []
  dump (float literal) = []
  dump (str s) = dump_text s ++ step end_text 0 ∷ []
  dump (list r) = dump_items r ++ step end_items 0 ∷ []
  dump (dict r) = dump_fields r ++ step end_fields 0 ∷ []

  dump_items : Items → List Step
  dump_items nil = step put_items 0 ∷ []
  dump_items (cons v r) = dump_items r ++ (dump v ++ step add_item 0 ∷ [])

  dump_fields : Fields → List Step
  dump_fields end = step put_fields 0 ∷ []
  dump_fields (field k v r) = dump_fields r ++ (dump_text k ++ (dump v ++ step add_field 0 ∷ []))

run-append : (a b : List Step) (st : List Cell) → run (a ++ b) st ≡ run b (run a st)
unfolding run
run-append [] b st = refl
run-append (step op n ∷ a) b st = run-append a b (apply op n st)

run-dump_text : (s : Text) (st : List Cell) → run (dump_text s) st ≡ text s ∷ st
unfolding run apply
run-dump_text [] st = refl
run-dump_text (c ∷ s) st =
    rw (run-append (dump_text s) (step add_char c ∷ []) st, run-dump_text s st)

mutual
  unfolding dump run apply IsExact

  run-dump : (v : Json) → IsExact v → (st : List Cell) → run (dump v) st ≡ value v ∷ st
  run-dump null h st = refl
  run-dump (bool true) h st = refl
  run-dump (bool false) h st = refl
  run-dump (int (pos n)) h st = refl
  run-dump (int (negsuc n)) h st = refl
  run-dump (float literal) h st = absurd h
  run-dump (str s) h st =
      rw (run-append (dump_text s) (step end_text 0 ∷ []) st, run-dump_text s st)
  run-dump (list r) h st =
      rw (run-append (dump_items r) (step end_items 0 ∷ []) st, run-dump_items r h st)
  run-dump (dict r) h st =
      rw (run-append (dump_fields r) (step end_fields 0 ∷ []) st, run-dump_fields r h st)

  run-dump_items :
      (r : Items) → AreExact r → (st : List Cell) → run (dump_items r) st ≡ items r ∷ st
  run-dump_items nil h st = refl
  run-dump_items (cons v r) (p, h) st =
      run-append (dump_items r) (dump v ++ step add_item 0 ∷ []) st
      ∙ ap (run (dump v ++ step add_item 0 ∷ [])) (run-dump_items r h st)
      ∙ run-append (dump v) (step add_item 0 ∷ []) (items r ∷ st)
      ∙ ap (run (step add_item 0 ∷ [])) (run-dump v p (items r ∷ st))

  run-dump_fields :
      (r : Fields) → HoldsExact r → (st : List Cell) → run (dump_fields r) st ≡ fields r ∷ st
  run-dump_fields end h st = refl
  run-dump_fields (field k v r) (q, p, o, h) st =
      run-append (dump_fields r) (dump_text k ++ (dump v ++ step add_field 0 ∷ [])) st
      ∙ ap (run (dump_text k ++ (dump v ++ step add_field 0 ∷ []))) (run-dump_fields r h st)
      ∙ run-append (dump_text k) (dump v ++ step add_field 0 ∷ []) (fields r ∷ st)
      ∙ ap (run (dump v ++ step add_field 0 ∷ [])) (run-dump_text k (fields r ∷ st))
      ∙ run-append (dump v) (step add_field 0 ∷ []) (text k ∷ fields r ∷ st)
      ∙ ap (run (step add_field 0 ∷ [])) (run-dump v p (text k ∷ fields r ∷ st))

-- Nine bytes an instruction: the operation, and the number in eight.
op_code : Op → ℕ
op_code put_null = 0
op_code put_bool = 1
op_code put_pos = 2
op_code put_negsuc = 3
op_code put_text = 4
op_code add_char = 5
op_code end_text = 6
op_code put_items = 7
op_code add_item = 8
op_code end_items = 9
op_code put_fields = 10
op_code add_field = 11
op_code end_fields = 12

op_of : ℕ → Op
op_of n =
    if n == 0
    then put_null
    else if n == 1
    then put_bool
    else if n == 2
    then put_pos
    else if n == 3
    then put_negsuc
    else if n == 4
    then put_text
    else if n == 5
    then add_char
    else if n == 6
    then end_text
    else if n == 7
    then put_items
    else if n == 8
    then add_item
    else if n == 9
    then end_items
    else if n == 10
    then put_fields
    else if n == 11
    then add_field
    else end_fields

op_of-op_code : (o : Op) → op_of (op_code o) ≡ o
unfolding op_of op_code
op_of-op_code put_null = refl
op_of-op_code put_bool = refl
op_of-op_code put_pos = refl
op_of-op_code put_negsuc = refl
op_of-op_code put_text = refl
op_of-op_code add_char = refl
op_of-op_code end_text = refl
op_of-op_code put_items = refl
op_of-op_code add_item = refl
op_of-op_code end_items = refl
op_of-op_code put_fields = refl
op_of-op_code add_field = refl
op_of-op_code end_fields = refl

op_code_lt : (o : Op) → op_code o < 256
unfolding op_code
op_code_lt put_null = omega arith
op_code_lt put_bool = omega arith
op_code_lt put_pos = omega arith
op_code_lt put_negsuc = omega arith
op_code_lt put_text = omega arith
op_code_lt add_char = omega arith
op_code_lt end_text = omega arith
op_code_lt put_items = omega arith
op_code_lt add_item = omega arith
op_code_lt end_items = omega arith
op_code_lt put_fields = omega arith
op_code_lt add_field = omega arith
op_code_lt end_fields = omega arith

number : ℕ → Bytes → Bytes
number n rest =
    (n % 256)
    ∷ (n / 2 ^ 8 % 256)
    ∷ (n / 2 ^ 16 % 256)
    ∷ (n / 2 ^ 24 % 256)
    ∷ (n / 2 ^ 32 % 256)
    ∷ (n / 2 ^ 40 % 256)
    ∷ (n / 2 ^ 48 % 256)
    ∷ (n / 2 ^ 56 % 256)
    ∷ rest

write : List Step → Bytes
unfolding op_code number
write [] = []
write (step o n ∷ rest) = op_code o ∷ number n (write rest)

read : Bytes → List Step
unfolding op_of
read (o ∷ a ∷ b ∷ c ∷ d ∷ e ∷ f ∷ g ∷ h ∷ rest) =
    step (op_of o)
      (a + b * 2 ^ 8 + c * 2 ^ 16 + d * 2 ^ 24 + e * 2 ^ 32 + f * 2 ^ 40 + g * 2 ^ 48 + h * 2 ^ 56)
    ∷ read rest
read _ = []

IsSmall : Step → Type 0
IsSmall (step o n) = n < 2 ^ 63

whole :
    (n : ℕ)
    → n < 2 ^ 63
    → n % 256
        + n / 256 % 256 * 256
        + n / 65536 % 256 * 65536
        + n / 16777216 % 256 * 16777216
        + n / 4294967296 % 256 * 4294967296
        + n / 1099511627776 % 256 * 1099511627776
        + n / 281474976710656 % 256 * 281474976710656
        + n / 72057594037927936 % 256 * 72057594037927936
      ≡ n
whole n h = omega arith

read-write : (ss : List Step) → All IsSmall ss → read (write ss) ≡ ss
unfolding write read number IsSmall
read-write [] h = refl
read-write (step o n ∷ ss) (p, h) =
    ap₂ (λ (x : Step) (xs : List Step). x ∷ xs) (ap₂ step (op_of-op_code o) (whole n p))
      (read-write ss h)

write_bytes : (ss : List Step) → All IsSmall ss → All (λ b. b < 256) (write ss)
unfolding write number IsSmall
write_bytes [] h = tt
write_bytes (step o n ∷ ss) (p, h) = ground (arith, op_code_lt o, write_bytes ss h)

dump_text-IsSmall : (s : Text) → All IsScalar s → All IsSmall (dump_text s)
unfolding IsSmall
dump_text-IsSmall [] h = (omega arith, tt)
dump_text-IsSmall (c ∷ s) (p, h) =
    All-append IsSmall (dump_text s) (step add_char c ∷ []) (dump_text-IsSmall s h)
      (ground arith, tt)

mutual
  unfolding dump IsExact IsSmall

  dump-IsSmall : (v : Json) → IsExact v → All IsSmall (dump v)
  dump-IsSmall null h = (omega arith, tt)
  dump-IsSmall (bool true) h = (omega arith, tt)
  dump-IsSmall (bool false) h = (omega arith, tt)
  dump-IsSmall (int (pos n)) h = (h, tt)
  dump-IsSmall (int (negsuc n)) h = (h, tt)
  dump-IsSmall (float literal) h = absurd h
  dump-IsSmall (str s) h =
      All-append IsSmall (dump_text s) (step end_text 0 ∷ []) (dump_text-IsSmall s h)
        (omega arith, tt)
  dump-IsSmall (list r) h =
      All-append IsSmall (dump_items r) (step end_items 0 ∷ []) (dump_items-IsSmall r h)
        (omega arith, tt)
  dump-IsSmall (dict r) h =
      All-append IsSmall (dump_fields r) (step end_fields 0 ∷ []) (dump_fields-IsSmall r h)
        (omega arith, tt)

  dump_items-IsSmall : (r : Items) → AreExact r → All IsSmall (dump_items r)
  dump_items-IsSmall nil h = (omega arith, tt)
  dump_items-IsSmall (cons v r) (p, h) =
      All-append IsSmall (dump_items r) (dump v ++ step add_item 0 ∷ []) (dump_items-IsSmall r h)
        (All-append IsSmall (dump v) (step add_item 0 ∷ []) (dump-IsSmall v p) (omega arith, tt))

  dump_fields-IsSmall : (r : Fields) → HoldsExact r → All IsSmall (dump_fields r)
  dump_fields-IsSmall end h = (omega arith, tt)
  dump_fields-IsSmall (field k v r) (q, p, o, h) =
      All-append IsSmall (dump_fields r) (dump_text k ++ (dump v ++ step add_field 0 ∷ []))
        (dump_fields-IsSmall r h)
        (All-append IsSmall (dump_text k) (dump v ++ step add_field 0 ∷ []) (dump_text-IsSmall k q)
          (All-append IsSmall (dump v) (step add_field 0 ∷ []) (dump-IsSmall v p)
            (omega arith, tt)))

only_value : List Cell → Result Text Json
only_value (value v ∷ []) = ok v
only_value _ = err (codes "not JSON")

pub dumps : Json → Bytes
unfolding write dump
dumps v = write (dump v)

pub loads : Bytes → Result Text Json
unfolding only_value run read
loads b = only_value (run (read b) [])

pub loads-dumps : (v : Json) → IsExact v → loads (dumps v) ≡ ok v
unfolding loads dumps only_value
loads-dumps v h = rw (read-write (dump v) (dump-IsSmall v h), run-dump v h []) refl

pub dumps_bytes : (v : Json) → IsExact v → All (λ b. b < 256) (dumps v)
unfolding dumps
dumps_bytes v h = write_bytes (dump v) (dump-IsSmall v h)
