-- ===== src/Platform.antt =====
-- What the program takes from Python's run time and is not modelled: SHA-256, regular expressions,
-- the text of a list or a dictionary, and double-precision numbers. A float is known by its bit
-- pattern alone, and the operations on it are arguments.
use x_dsi_cet.Base.{ℕ, Bool, true, false, Option, none, some}
use x_dsi_cet.Base.Int.{ℤ, pos}
use x_dsi_cet.Base.Text.{Text, codes, int_text}
use x_dsi_cet.Value.{Value, null, bool, int, str, arr, obj}

abbrev pub Float : Type 0
Float = ℕ

pub record Platform : Type 0 where
  -- `int(text)`; none for a ValueError
  pub int_of_text : Text → Option ℤ
  -- `hashlib.sha256(text.encode("utf-8")).hexdigest()`
  pub sha256_hex : Text → Text
  -- `str` of a list or a dictionary
  pub repr : Value → Text
  -- `re.search(pattern, text) is not None`; none for a pattern that `re` rejects
  pub regex_search : Text → Text → Option Bool
  -- `float(n)`, `float(text)` (none: ValueError), `a + b`, `a * b`, `a < b`
  pub float_of_int : ℤ → Float
  pub float_of_text : Text → Option Float
  pub add : Float → Float → Float
  pub mul : Float → Float → Float
  pub lt : Float → Float → Bool
  pub le : Float → Float → Bool

-- `str(v)`.
unfoldable pub str_of : Platform → Value → Text
unfolding int_text
str_of p null = codes "None"
str_of p (bool true) = codes "True"
str_of p (bool false) = codes "False"
str_of p (int n) = int_text n
str_of p (str s) = s
str_of p (arr xs) = p.repr (arr xs)
str_of p (obj fs) = p.repr (obj fs)

-- `float(v)`; `none` stands for its TypeError or ValueError.
unfoldable pub float_of : Platform → Value → Option Float
float_of p (bool true) = some (p.float_of_int (pos 1))
float_of p (bool false) = some (p.float_of_int (pos 0))
float_of p (int n) = some (p.float_of_int n)
float_of p (str s) = p.float_of_text s
float_of p _ = none
