-- ===== src/Regdefs.antt =====
-- sw/regdefs.h and sw/regdefs.cpp: the names of the registers.
pub mod Names
use dbgbus.Base.{
  ℕ, Bool, true, false, ◌&&◌, Option, none, some, List, [], ◌∷◌, ◌==◌, if◌then◌else◌, get_or, u32,
}
use dbgbus.Outcome.{Outcome, ok, aborted}
use dbgbus.Text.Ctype.{isalpha, tolower}
use dbgbus.Text.Strings.{codes}

-- REGNAME.
pub record Regname : Type 0 where
  pub addr : ℕ
  pub name : List ℕ

abbrev pub r_version : ℕ
r_version = 0x2040

abbrev pub r_buserr : ℕ
r_buserr = 0x2048

abbrev pub r_pwrcount : ℕ
r_pwrcount = 0x204c

abbrev pub r_int : ℕ
r_int = 0x2050

abbrev pub r_halt : ℕ
r_halt = 0x2054

abbrev pub r_scope : ℕ
r_scope = 0x2080

abbrev pub r_scopd : ℕ
r_scopd = 0x2084

abbrev pub r_mem : ℕ
r_mem = 0x4000

abbrev pub bregs : List Regname
bregs =
    record { addr = r_version; name = codes "VERSION" }
    ∷ record { addr = r_buserr; name = codes "BUSERR" }
    ∷ record { addr = r_pwrcount; name = codes "PWRCOUNT" }
    ∷ record { addr = r_int; name = codes "int" }
    ∷ record { addr = r_halt; name = codes "halt" }
    ∷ record { addr = r_scope; name = codes "SCOPE" }
    ∷ record { addr = r_scopd; name = codes "SCOPD" }
    ∷ record { addr = r_mem; name = codes "MEM" }
    ∷ record { addr = r_mem; name = codes "RAM" }
    ∷ []

-- Whether `strcasecmp` gives 0.
abbrev pub same_nocase : List ℕ → List ℕ → Bool
same_nocase [] [] = true
same_nocase [] (y ∷ ys) = false
same_nocase (x ∷ xs) [] = false
same_nocase (x ∷ xs) (y ∷ ys) = tolower x == tolower y && same_nocase xs ys

-- The loop of addrdecode: an unknown name ends the program.
unfoldable pub find_name : List ℕ → List Regname → Outcome ℕ
find_name v [] = aborted
find_name v (r ∷ rs) = if same_nocase v r.name then ok r.addr else find_name v rs

-- addrdecode, where `strtoul` is that of the C library at base 0. R_ZIPCTRL and R_ZIPDATA are not
-- defined.
unfoldable pub addrdecode : (List ℕ → ℕ) → List ℕ → Outcome ℕ
unfolding find_name
addrdecode strtoul v = if isalpha (get_or v 0 0) then find_name v bregs else ok (u32 (strtoul v))

-- The loop of addrname.
unfoldable pub find_addr : ℕ → List Regname → Option (List ℕ)
find_addr v [] = none
find_addr v (r ∷ rs) = if r.addr == v then some r.name else find_addr v rs

-- addrname; `none` is NULL.
unfoldable pub addrname : ℕ → Option (List ℕ)
unfolding find_addr
addrname v = find_addr v bregs
