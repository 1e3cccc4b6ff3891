-- ===== src/Settings/Unhashable.antt =====
-- When an OPC UA security table ends in Python's `TypeError`.
use omarchy_hardware.Common.{
  ◌≡◌, ◌≢◌, ◌↔◌, inl, inr, refl, leb, length, Bool, true, false, not, ◌&&◌, ◌||◌, Option, none,
  some, is_some, List, [], ◌∷◌, Bool-cases, if-both,
}
use omarchy_hardware.Common.Text.{Text, codes, text_eq, contains}
use omarchy_hardware.Policy.Weintek.{truthy, mode_none}
use omarchy_hardware.Settings.Toml.{
  Value, text, int, negative, bool, other, array, table, Table, get, or_default,
}
use omarchy_hardware.Settings.Outcome.{Outcome, ok, config_error, type_error, ◌>>=◌, ◌>>◌, require}
use omarchy_hardware.Settings.Fields.{
  Python, is_empty, has_any, is_unplain, path_of, optional_path, name_of, optional_name, flag_of,
  flag,
}
use omarchy_hardware.Settings.Security.{
  opcua_policies, opcua_modes, choice, credentials, opcua_keys, opcua_table,
}

-- A list or a table, which has no hash.
abbrev pub is_unhashable : Value → Bool
is_unhashable (array vs) = true
is_unhashable (table t) = true
is_unhashable _ = false

-- A text of the given ones.
abbrev pub is_choice : List Text → Value → Bool
is_choice choices (text s) = contains choices s
is_choice choices _ = false

-- No `TypeError`.
data Handled {A : Type 0} : Outcome A → Type 0 where
  returns : {a : A} → Handled (ok a)
  refuses : Handled config_error

then-Handled :
    {A B : Type 0} (m : Outcome A) {f : A → Outcome B}
    → Handled m
    → ((a : A) → Handled (f a))
    → Handled (m >>= f)
then-Handled m returns k = k _
then-Handled m refuses k = refuses

next-Handled :
    {A B : Type 0} (m : Outcome A) {k : Outcome B} → Handled m → Handled k → Handled (m >> k)
next-Handled m returns k = k
next-Handled m refuses k = refuses

require-Handled : (test : Bool) → Handled (require test)
require-Handled true = returns
require-Handled false = refuses

flag_of-Handled : (v : Value) → Handled (flag_of v)
unfolding flag_of
flag_of-Handled (text s) = refuses
flag_of-Handled (int n) = refuses
flag_of-Handled (negative n) = refuses
flag_of-Handled (bool b) = returns
flag_of-Handled (other b) = refuses
flag_of-Handled (array vs) = refuses
flag_of-Handled (table t) = refuses

flag-Handled : (key : Text) (default : Bool) (raw : Table) → Handled (flag key default raw)
unfolding flag
flag-Handled key default raw = flag_of-Handled (or_default (bool default) (get key raw))

path_of-Handled : (v : Option Value) → Handled (path_of v)
unfolding path_of
path_of-Handled none = returns
path_of-Handled (some (text s)) =
    next-Handled (require (not (is_empty s) && not (has_any (0 ∷ 10 ∷ 13 ∷ []) s)))
      (require-Handled _) returns
path_of-Handled (some (int n)) = refuses
path_of-Handled (some (negative n)) = refuses
path_of-Handled (some (bool b)) = refuses
path_of-Handled (some (other b)) = refuses
path_of-Handled (some (array vs)) = refuses
path_of-Handled (some (table t)) = refuses

optional_path-Handled : (key : Text) (raw : Table) → Handled (optional_path key raw)
unfolding optional_path
optional_path-Handled key raw = path_of-Handled (get key raw)

name_of-Handled : (py : Python) (v : Option Value) → Handled (name_of py 128 v)
unfolding name_of
name_of-Handled py none = returns
name_of-Handled py (some (text s)) =
    next-Handled (require (not (is_empty s) && leb (length s) 128)) (require-Handled _)
      (next-Handled (require (not (is_unplain py s))) (require-Handled _) returns)
name_of-Handled py (some (int n)) = refuses
name_of-Handled py (some (negative n)) = refuses
name_of-Handled py (some (bool b)) = refuses
name_of-Handled py (some (other b)) = refuses
name_of-Handled py (some (array vs)) = refuses
name_of-Handled py (some (table t)) = refuses

optional_name-Handled :
    (py : Python) (key : Text) (raw : Table) → Handled (optional_name py key raw)
unfolding optional_name
optional_name-Handled py key raw = name_of-Handled py (get key raw)

credentials-Handled :
    (raw : Table) (password_env password_file : Option Text)
    → Handled (credentials raw password_env password_file)
unfolding credentials
credentials-Handled raw password_env password_file =
    next-Handled (require (not (truthy password_env && truthy password_file))) (require-Handled _) (
      next-Handled
        (require (
          not (
            is_some (get (codes "username") raw)
            && not (is_some password_env || is_some password_file))))
        (require-Handled _) (require-Handled _))

opcua_keys-Handled :
    (mode : Text) (allow : Bool) (certificate key : Option Text)
    → Handled (opcua_keys mode allow certificate key)
unfolding opcua_keys
opcua_keys-Handled mode allow certificate key =
    if-both Handled (text_eq mode mode_none) (require-Handled _) (require-Handled _)

Handled-ne : {A : Type 0} {m : Outcome A} → Handled m → m ≢ type_error
Handled-ne returns e = cc
Handled-ne refuses e = cc

-- What a membership test comes to: for a value with no hash, for one that is not a choice, and for
-- one that is.
data Chosen : Outcome Text → Bool → Bool → Type 0 where
  unhashable : Chosen type_error true false
  unknown : Chosen config_error false false
  known : (s : Text) → Chosen (ok s) false true

choice-Chosen :
    (choices : List Text) (v : Value)
    → Chosen (choice choices v) (is_unhashable v) (is_choice choices v)
unfolding choice
choice-Chosen choices (array vs) = unhashable
choice-Chosen choices (table t) = unhashable
choice-Chosen choices (int n) = unknown
choice-Chosen choices (negative n) = unknown
choice-Chosen choices (bool b) = unknown
choice-Chosen choices (other b) = unknown
choice-Chosen choices (text s) = elim (Bool-cases (contains choices s)) [
  | inl e ↦ rw e (known s)
  | inr e ↦ rw e unknown
]

two_choices :
    {m n : Outcome Text} {u k u' k' : Bool} {B : Type 0}
    → Chosen m u k
    → Chosen n u' k'
    → (f : Text → Text → Outcome B) → ((p q : Text) → Handled (f p q))
    → ((m >>= λ p. n >>= λ q. f p q) ≡ type_error) ↔ ((u || (k && u')) ≡ true)
two_choices unhashable c f h = ((λ _. refl), (λ _. refl))
two_choices unknown c f h = ((λ e. cc), (λ e. cc))
two_choices (known p) unhashable f h = ((λ _. refl), (λ _. refl))
two_choices (known p) unknown f h = ((λ e. cc), (λ e. cc))
two_choices (known p) (known q) f h = ((λ e. elim (Handled-ne (h p q) e) [ ]), (λ e. cc))

-- An OPC UA security table raises a TypeError, and no ConfigError, exactly when its policy is
-- a list or a table, or its policy is one of the known ones and its mode is a list or a table.
pub opcua_table-type_error :
    (py : Python) (raw : Table)
    → (opcua_table py raw ≡ type_error) ↔ (
        (is_unhashable (or_default (text (codes "Basic256Sha256")) (get (codes "policy") raw))
          || (is_choice opcua_policies
                (or_default (text (codes "Basic256Sha256")) (get (codes "policy") raw))
              && is_unhashable
                  (or_default (text (codes "SignAndEncrypt")) (get (codes "mode") raw))))
        ≡ true)
unfolding opcua_table
opcua_table-type_error py raw =
    two_choices (choice-Chosen opcua_policies _) (choice-Chosen opcua_modes _) _ λ policy mode.
      next-Handled
        (require (
          text_eq policy mode_none && text_eq mode mode_none
          || not (text_eq policy mode_none || text_eq mode mode_none)))
        (require-Handled _)
        (then-Handled (flag (codes "allow_insecure") false raw)
          (flag-Handled (codes "allow_insecure") false raw)
          λ allow.
            then-Handled (optional_path (codes "certificate") raw)
              (optional_path-Handled (codes "certificate") raw)
              λ certificate.
                then-Handled (optional_path (codes "private_key") raw)
                  (optional_path-Handled (codes "private_key") raw)
                  λ private_key.
                    next-Handled (opcua_keys mode allow certificate private_key)
                      (opcua_keys-Handled mode allow certificate private_key)
                      (then-Handled (optional_path (codes "trust_list") raw)
                        (optional_path-Handled (codes "trust_list") raw)
                        λ trust_list.
                          next-Handled (require (text_eq mode mode_none || truthy trust_list))
                            (require-Handled _)
                            (then-Handled (optional_name py (codes "password_env") raw)
                              (optional_name-Handled py (codes "password_env") raw)
                              λ password_env.
                                then-Handled (optional_path (codes "password_file") raw)
                                  (optional_path-Handled (codes "password_file") raw)
                                  λ password_file.
                                    next-Handled (credentials raw password_env password_file)
                                      (credentials-Handled raw password_env password_file)
                                      (then-Handled (optional_name py (codes "username") raw)
                                        (optional_name-Handled py (codes "username") raw)
                                        λ username. returns))))
