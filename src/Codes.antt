-- ===== src/Codes.antt =====
-- The type codes of c/struple.c, in the order of the file, and the bounds of the C integer types.
use struple.Prelude.{ℕ, Bool, ◌^◌, ◌-◌, ◌&&◌, leb}

abbrev pub terminator : ℕ
terminator = 0x00

abbrev pub nil_code : ℕ
nil_code = 0x01

abbrev pub undef_code : ℕ
undef_code = 0x02

abbrev pub bool_false : ℕ
bool_false = 0x05

abbrev pub bool_true : ℕ
bool_true = 0x06

abbrev pub int_neg_big : ℕ
int_neg_big = 0x0f

abbrev pub int_zero : ℕ
int_zero = 0x20

abbrev pub int_pos_big : ℕ
int_pos_big = 0x31

abbrev pub float32 : ℕ
float32 = 0x34

abbrev pub float64 : ℕ
float64 = 0x35

abbrev pub decimal_code : ℕ
decimal_code = 0x38

abbrev pub timestamp_code : ℕ
timestamp_code = 0x40

abbrev pub dec_sign_neg : ℕ
dec_sign_neg = 0x01

abbrev pub dec_sign_zero : ℕ
dec_sign_zero = 0x02

abbrev pub dec_sign_pos : ℕ
dec_sign_pos = 0x03

abbrev pub uuid_code : ℕ
uuid_code = 0x44

abbrev pub string_code : ℕ
string_code = 0x48

abbrev pub bytes_code : ℕ
bytes_code = 0x49

abbrev pub array_code : ℕ
array_code = 0x50

abbrev pub map_code : ℕ
map_code = 0x52

abbrev pub set_code : ℕ
set_code = 0x54

abbrev pub sign64 : ℕ
sign64 = 2 ^ 63

abbrev pub sign32 : ℕ
sign32 = 2 ^ 31

-- `t >= 0x10 && t <= 0x1f` and `t >= 0x21 && t <= 0x30`: the fixed-width integer slots.
abbrev pub is_fixed_neg : ℕ → Bool
is_fixed_neg t = leb 0x10 t && leb t 0x1f

abbrev pub is_fixed_pos : ℕ → Bool
is_fixed_pos t = leb 0x21 t && leb t 0x30

abbrev pub u64_mod : ℕ
u64_mod = 2 ^ 64

abbrev pub int64_max : ℕ
int64_max = 2 ^ 63 - 1

abbrev pub int32_max : ℕ
int32_max = 2 ^ 31 - 1
