-- ===== src/Check/Catalog.antt =====
-- internal/check/check.go and catalog.go: the catalog of checks.
pub mod Registered
use Prim.Native.Char.{code}
use Prim.Native.Nat.{Ordering}
use Prim.Native.String
use Prim.Native.String.{compare}
use scheck.Prelude.{
  String, Bool, true, false, ◌||◌, Option, none, some, List, [], ◌∷◌, Eq, ◌==◌, string_eq, nat_eq,
  if◌then◌else◌, ◌≡◌, ◌↔◌, arith, ◌&&◌, not, ◌++◌, any, all, keep, ltb, leb, length, ℕ,
}
use scheck.Prelude.Int.{ℤ, negsuc, sub_ℕ, pos_part, neg_part}
use scheck.Prelude.Sort.{sort_stable}
use scheck.Prelude.Strings.{split}
use scheck.Finding.Severity.{Profile, hardened}

-- `Platform`.
pub data Platform : Type 0 where
  macos linux any_platform : Platform

unfoldable pub platform_beq : Platform → Platform → Bool
platform_beq macos macos = true
platform_beq linux linux = true
platform_beq any_platform any_platform = true
platform_beq _ _ = false

pub platform_beq_iff : (p q : Platform) → (platform_beq p q ≡ true) ↔ (p ≡ q)
unfolding platform_beq
platform_beq_iff p q = ground arith

instance abbrev pub platform_eq : Eq Platform
platform_eq = record { beq = platform_beq; beq_iff = platform_beq_iff }

-- `ParamKind`; `other_kind` is any other text.
pub data Kind : Type 0 where
  kind_path kind_enum kind_int kind_ident other_kind : Kind

-- `Param`.
pub record Param : Type 0 where
  pub name : String
  pub kind : Kind
  pub values : List String
  pub lowest : ℤ
  pub highest : ℤ

-- `ParserKind`; `other_parser` is any other text.
pub data Parser : Type 0 where
  parse_raw parse_lines parse_kv parse_json : Parser
  parse_listeners parse_accounts parse_passwd_status parse_units parse_updates parse_launchd
        parse_file_mode :
      Parser
  other_parser : Parser

-- `PathUse`.
pub data PathUse : Type 0 where
  path_none path_content path_metadata : PathUse

-- `Check`, less its texts for the reader. In `exit_ok`, Go's nil is `none`; of the budget, the soft limit
-- stands for nothing that a check is judged by, and is left out. An empty `extract` is none.
pub record Check : Type 0 where
  pub id : String
  pub platform : Platform
  pub argv : List String
  pub params : List Param
  pub parser : Parser
  pub baseline : Bool
  pub min_profile : Profile
  pub elevated : Bool
  pub exit_ok : Option (List ℤ)
  pub hard : ℤ
  pub output : ℤ
  pub path_use : PathUse
  pub canary : Bool
  pub extract : String

-- The loop of `Lookup`, with the entry for any platform that it has passed.
lookup_loop : String → Platform → Option Check → List Check → Option Check
lookup_loop id p fallback [] = fallback
lookup_loop id p fallback (e ∷ es) =
    let next = lookup_loop id p fallback es in
    let fallen = lookup_loop id p (some e) es in
    if e.id == id
    then (if e.platform == p then some e else if e.platform == any_platform then fallen else next)
    else next

-- `Lookup`: the entry for the platform if there is one, and otherwise the one for any platform.
pub lookup : List Check → String → Platform → Option Check
lookup entries id p = lookup_loop id p none entries

-- `Check.AppliesTo`.
unfoldable pub applies_to : Check → Platform → Bool
applies_to c p = c.platform == any_platform || c.platform == p

-- `Check.HasPathParam`.
is_path : Kind → Bool
is_path kind_path = true
is_path _ = false

has_path_param : Check → Bool
has_path_param c = any (λ p. is_path p.kind) c.params

-- `Check.OnDemand`.
on_demand : Check → Bool
on_demand c = not c.baseline

pub int_beq : ℤ → ℤ → Bool
int_beq a b = pos_part a == pos_part b && neg_part a == neg_part b

-- `anyExitMarker`.
pub any_exit_marker : ℤ
any_exit_marker = negsuc 1073741823

-- `Check.ExitAllowed`.
pub exit_allowed : Option (List ℤ) → ℤ → Bool
exit_allowed none code = int_beq code (ℤ.pos 0)
exit_allowed (some codes) code = any (λ ok. int_beq ok any_exit_marker || int_beq ok code) codes

unfoldable pub lower_letter : ℕ → Bool
lower_letter c = leb b'a' c && leb c b'z'

unfoldable pub word_tail : String → Bool
word_tail String.[] = true
word_tail (String.◌∷◌ c s) =
    (lower_letter (code c) || (leb b'0' (code c) && leb (code c) b'9') || code c == b'_')
    && word_tail s

-- `[a-z][a-z0-9_]*`.
unfoldable pub is_word : String → Bool
is_word String.[] = false
is_word (String.◌∷◌ c s) = lower_letter (code c) && word_tail s

-- `idRe`: two words or more, joined by dots.
unfoldable pub is_id : String → Bool
is_id id = let parts = split id b'.' in ltb 1 (length parts) && all is_word parts

-- Two checks of one id may stand side by side only for two platforms, neither of them `any`.
unfoldable pub clashes : Check → Check → Bool
clashes c e =
    e.id == c.id
    && (e.platform == c.platform || e.platform == any_platform || c.platform == any_platform)

-- `Register` of one check; `none` is its panic.
unfoldable pub register_one : List Check → Check → Option (List Check)
register_one entries c =
    if not (is_id c.id)
    then none
    else if any (clashes c) entries
    then none
    else some (entries ++ c ∷ [])

-- `Register`, from the entries of the calls before.
unfoldable pub register : List Check → List Check → Option (List Check)
register entries [] = some entries
register entries (c ∷ cs) = elim (register_one entries c) [
  | none ↦ none
  | some more ↦ register more cs
]

platform_name : Platform → String
platform_name macos = "macos"
platform_name linux = "linux"
platform_name any_platform = "any"

less : String → String → Bool
less s t = elim (compare s t) [ Ordering.lt ↦ true | _ ↦ false ]

check_less : Check → Check → Bool
check_less a b =
    if not (a.id == b.id)
    then less a.id b.id
    else less (platform_name a.platform) (platform_name b.platform)

-- `All`.
all_checks : List Check → List Check
all_checks entries = sort_stable check_less entries

-- `c.MinProfile <= prof`.
pub visible : Profile → Profile → Bool
visible hardened Profile.baseline = false
visible _ _ = true

-- `ForPlatform`.
pub for_platform : List Check → Platform → Profile → List Check
for_platform entries p prof =
    keep (λ c. applies_to c p && visible c.min_profile prof) (all_checks entries)

-- `Baseline`.
baseline_checks : List Check → Platform → List Check
baseline_checks entries p = keep (λ c. c.baseline && applies_to c p) (all_checks entries)
