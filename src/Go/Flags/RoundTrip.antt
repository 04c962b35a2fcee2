-- ===== src/Go/Flags/RoundTrip.antt =====
-- Package flag: `FlagSet.Parse` on written flags.
use noetivela_open.Prelude.{
  ℕ, ◌≡◌, refl, ◌∙◌, Bool, true, false, not, ◌&&◌, ◌==◌, arith, none, some, List, [], ◌∷◌, ◌++◌,
  Bytes, All, if◌then◌else◌,
}
use noetivela_open.Go.Integers
use noetivela_open.Go.Flags.{
  named, split_value, name_of, classify, Value, Flags, find, store, set_value, parse_flags,
}

-- A name that a flag can be written with.
abbrev pub IsFlagName : Bytes → Type 0
IsFlagName [] = ⊥
IsFlagName (c ∷ cs) =
    ((c == b'-') ≡ false) × ((c == b'=') ≡ false) × All (λ d. (d == b'=') ≡ false) cs

-- A test for such names.
abbrev no_equals : Bytes → Bool
no_equals [] = true
no_equals (c ∷ cs) = not (c == b'=') && no_equals cs

abbrev pub is_flag_name : Bytes → Bool
is_flag_name [] = false
is_flag_name (c ∷ cs) = not (c == b'-') && not (c == b'=') && no_equals cs

no_equals-All : (cs : Bytes) → no_equals cs ≡ true → All (λ d. (d == b'=') ≡ false) cs
no_equals-All [] h = tt
no_equals-All (c ∷ cs) h = (ground arith, no_equals-All cs (ground arith))

pub flag_name : (n : Bytes) → is_flag_name n ≡ true → IsFlagName n
flag_name [] h = absurd cc
flag_name (c ∷ cs) h = (ground arith, ground arith, no_equals-All cs (ground arith))

-- One dash or two, and the value behind `=` or as an argument of its own.
pub record Setting : Type 0 where
  pub double : Bool
  pub joined : Bool
  pub name : Bytes
  pub value : Bytes

abbrev dashed : Bool → Bytes → Bytes
dashed double s = if double then b'-' ∷ b'-' ∷ s else b'-' ∷ s

abbrev pub write_setting : Setting → List Bytes → List Bytes
write_setting st args =
    if st.joined
    then dashed st.double (st.name ++ b'=' ∷ st.value) ∷ args
    else dashed st.double st.name ∷ st.value ∷ args

unfoldable pub write : List Setting → List Bytes → List Bytes
write [] args = args
write (st ∷ sts) args = write_setting st (write sts args)

split_value-append :
    (s v : Bytes) → All (λ d. (d == b'=') ≡ false) s → split_value (s ++ b'=' ∷ v) ≡ (s, some v)
unfolding split_value
split_value-append [] v a = refl
split_value-append (c ∷ s) v (h, a) = rw (h, split_value-append s v a) refl

split_value-none : (s : Bytes) → All (λ d. (d == b'=') ≡ false) s → split_value s ≡ (s, none)
unfolding split_value
split_value-none [] a = refl
split_value-none (c ∷ s) (h, a) = rw (h, split_value-none s a) refl

name_of-append : (n v : Bytes) → IsFlagName n → name_of (n ++ b'=' ∷ v) ≡ named n (some v)
unfolding name_of
name_of-append [] v n = absurd n
name_of-append (c ∷ s) v (h, k, a) = rw (h, k) (rw (split_value-append s v a) refl)

name_of-none : (n : Bytes) → IsFlagName n → name_of n ≡ named n none
unfolding name_of
name_of-none [] n = absurd n
name_of-none (c ∷ s) (h, k, a) = rw (h, k) (rw (split_value-none s a) refl)

-- Behind one dash stands a name, or another dash with a name behind it.
classify-one : (c : ℕ) (s : Bytes) → (c == b'-') ≡ false → classify (b'-' ∷ c ∷ s) ≡ name_of (c ∷ s)
unfolding classify
classify-one c [] h = rw h refl
classify-one c (d ∷ s) h = rw h refl

classify-two : (c : ℕ) (s : Bytes) → classify (b'-' ∷ b'-' ∷ c ∷ s) ≡ name_of (c ∷ s)
unfolding classify
classify-two c s = refl

classify-joined :
    (double : Bool) (n v : Bytes)
    → IsFlagName n
    → classify (dashed double (n ++ b'=' ∷ v)) ≡ named n (some v)
classify-joined double [] v n = absurd n
classify-joined true (c ∷ s) v n = classify-two c _ ∙ name_of-append (c ∷ s) v n
classify-joined false (c ∷ s) v n = classify-one c _ n.0 ∙ name_of-append (c ∷ s) v n

classify-separate :
    (double : Bool) (n : Bytes) → IsFlagName n → classify (dashed double n) ≡ named n none
classify-separate double [] n = absurd n
classify-separate true (c ∷ s) n = classify-two c _ ∙ name_of-none (c ∷ s) n
classify-separate false (c ∷ s) n = classify-one c s n.0 ∙ name_of-none (c ∷ s) n

module _ (Float : Type 0) (parse_float : Bytes → Integers.Parsed Float) where
  abbrev FlagsOf : Type 0
  FlagsOf = Flags Float parse_float

  -- The settings, one after another, change the flags into others; each name is defined, and each
  -- value is read.
  pub data Sets : List Setting → FlagsOf → FlagsOf → Type 0 where
    unchanged : {fs : FlagsOf} → Sets [] fs fs
    changed :
        {st : Setting} {sts : List Setting} {fs gs : FlagsOf} (old new : Value Float parse_float)
        → IsFlagName st.name
        → find Float parse_float st.name fs ≡ some old
        → set_value Float parse_float old st.value ≡ Integers.ok new
        → Sets sts (store Float parse_float st.name new fs) gs
        → Sets (st ∷ sts) fs gs

  parse_flags-joined :
      (s n v : Bytes) (args : List Bytes) (fs : FlagsOf) (old new : Value Float parse_float)
      → classify s ≡ named n (some v)
      → find Float parse_float n fs ≡ some old
      → set_value Float parse_float old v ≡ Integers.ok new
      → parse_flags Float parse_float (s ∷ args) fs
        ≡ parse_flags Float parse_float args (store Float parse_float n new fs)
  unfolding parse_flags
  parse_flags-joined s n v [] fs old new c f h = rw c (rw f (rw h refl))
  parse_flags-joined s n v (a ∷ args) fs old new c f h = rw c (rw f (rw h refl))

  parse_flags-separate :
      (s n v : Bytes) (args : List Bytes) (fs : FlagsOf) (old new : Value Float parse_float)
      → classify s ≡ named n none
      → find Float parse_float n fs ≡ some old
      → set_value Float parse_float old v ≡ Integers.ok new
      → parse_flags Float parse_float (s ∷ v ∷ args) fs
        ≡ parse_flags Float parse_float args (store Float parse_float n new fs)
  unfolding parse_flags
  parse_flags-separate s n v args fs old new c f h = rw c (rw f (rw h refl))

  parse_flags-setting :
      (double joined : Bool) (n v : Bytes) (args : List Bytes) (fs : FlagsOf)
      (old new : Value Float parse_float)
      → IsFlagName n
      → find Float parse_float n fs ≡ some old
      → set_value Float parse_float old v ≡ Integers.ok new
      → parse_flags Float parse_float
          (write_setting (record { double = double; joined = joined; name = n; value = v }) args)
          fs
        ≡ parse_flags Float parse_float args (store Float parse_float n new fs)
  parse_flags-setting double true n v args fs old new i f h =
      parse_flags-joined _ n v args fs old new (classify-joined double n v i) f h
  parse_flags-setting double false n v args fs old new i f h =
      parse_flags-separate _ n v args fs old new (classify-separate double n i) f h

  -- Flags written with one dash or two, with their values behind `=` or as arguments of their own,
  -- are set one after another, and what stands behind them is read with the flags that result.
  pub parse_flags-write :
      (sts : List Setting) (args : List Bytes) (fs gs : FlagsOf)
      → Sets sts fs gs
      → parse_flags Float parse_float (write sts args) fs ≡ parse_flags Float parse_float args gs
  unfolding write
  parse_flags-write [] args fs gs unchanged = refl
  parse_flags-write (st ∷ sts) args fs gs (changed old new i f h later) =
      parse_flags-setting st.double st.joined st.name st.value (write sts args) fs old new i f h
      ∙ parse_flags-write sts args _ gs later
