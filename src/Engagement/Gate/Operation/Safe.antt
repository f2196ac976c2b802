-- ===== src/Engagement/Gate/Operation/Safe.antt =====
-- Where a validated operation can send, and as what.
use scheck.Prelude.{
  String, Bool, true, false, not, ◌&&◌, ◌||◌, Option, List, [], ◌∷◌, ◌++◌, all, contains, map_get,
  ◌≡◌, refl, arith, ◌==◌, string_eq, All, Bool-cases, inl, inr, ◌⊎◌, if◌then◌else◌,
}
use scheck.Engagement.Gate.Declared.{
  Op, Provider, providers, Validated, valid, broken, ◌>>=◌, Checks, check_all,
}
use scheck.Engagement.Gate.Template.{placeholders, Template, template}
use scheck.Engagement.Gate.Uses.{is_read, target, exempt, subject_checks, subject_of}
use scheck.Engagement.Gate.Operation.{
  is_post, is_exchange, is_no_auth, never_read_in, declaration, destination, api_destination,
  web_destination, provider_of, Compiled, validate, token_url,
}

abbrev pub Ensures {ℓ κ} : {A : Type ℓ} → (A → Type κ) → Validated A → Type κ
Ensures P (valid a) = P a
Ensures P (broken rule) = Unit

-- The checks that passed.
abbrev Holds : Checks → Type 0
Holds l = All (λ check. check.0 ≡ true) l

Ensures-mono {ℓ κ μ} :
    {A : Type ℓ} {P : A → Type κ} {Q : A → Type μ} (r : Validated A)
    → ((a : A) → P a → Q a)
    → Ensures P r
    → Ensures Q r
Ensures-mono (valid a) f h = f a h
Ensures-mono (broken rule) f h = tt

check_all-Holds : (l : Checks) → Ensures (λ done. Holds l) (check_all l)
unfolding check_all
check_all-Holds [] = tt
check_all-Holds ((true, rule) ∷ rest) =
    Ensures-mono (check_all rest) (λ done h. (refl, h)) (check_all-Holds rest)
check_all-Holds ((false, rule) ∷ rest) = tt

then-Ensures {ℓ} :
    {B : Type ℓ} {H : Type 0} (P : B → Type 0) (r : Validated Bool) (k : Validated B)
    → Ensures (λ done. H) r
    → (H → Ensures P k)
    → Ensures P (r >>= λ done. k)
then-Ensures P (valid done) k h f = f h
then-Ensures P (broken rule) k h f = tt

-- Behind a list of checks, all of them hold.
check_then {ℓ} :
    {B : Type ℓ} (P : B → Type 0) (l : Checks) (k : Validated B)
    → (Holds l → Ensures P k)
    → Ensures P (check_all l >>= λ done. k)
check_then P l k f = then-Ensures P (check_all l) k (check_all-Holds l) f

All-second {ℓ κ} :
    {T : Type ℓ} (Q : T → Type κ) (front back : List T) → All Q (front ++ back) → All Q back
All-second Q [] back h = h
All-second Q (t ∷ front) back h = All-second Q front back h.1

-- The operation of an API, over https to a host of its provider.
pub record IsApi (c : Compiled) : Type 0 where
  pub api : (provider_of c.op).web ≡ false
  pub secure : (c.template.scheme == "https") ≡ true
  pub hosted : contains (provider_of c.op).hosts c.template.host ≡ true

-- An operation on a site: a read without a credential, and no POST.
pub record IsSite (c : Compiled) : Type 0 where
  pub site : (provider_of c.op).web ≡ true
  pub bare : is_no_auth c.op.auth ≡ true
  pub reads : is_read c.op.class ≡ true
  pub no_post : is_post c.op.method ≡ false

-- What a validated operation can send, and where.
pub record IsSafe (unescape : String → Option String) (c : Compiled) : Type 0 where
  -- A POST is the credential exchange, at the token endpoint itself.
  pub posts :
      (is_post c.op.method ≡ false)
      ⊎ ((is_exchange c.op.class ≡ true)
          × ((provider_of c.op).web ≡ false)
          × ((c.op.url == token_url) ≡ true))
  -- The operation of an API goes over https to a host of its provider; one on a site carries no credential, and reads.
  pub placed : IsApi c ⊎ IsSite c
  -- What picks the target stands in the subject, or varies within it.
  pub aimed :
      all
        (λ n. contains (placeholders c.subject) n || exempt c.op n)
        (placeholders (target c.template))
      ≡ true
  -- Its URL is none that returns credentials.
  pub harmless : never_read_in unescape c.op.url ≡ false

and-second : (a b : Bool) → (a && b) ≡ true → b ≡ true
and-second a b h = ground arith

-- A POST is an exchange, which is no read, and so on no site.
post_off_site :
    (p x w r u : Bool)
    → (not p || x) ≡ true
    → (x ≡ true → r ≡ false)
    → (w ≡ true → r ≡ true)
    → (w ≡ false → (not x || u) ≡ true)
    → p ≡ true
    → (x ≡ true) × (w ≡ false) × (u ≡ true)
post_off_site p x true r u h n site api e =
    let out : ⊥ =
      let k : x ≡ true = ground arith in let o = n k in let q = site refl in ground arith in
    absurd out
post_off_site p x false r u h n site api e =
    let k : x ≡ true = ground arith in let a = api refl in (k, refl, ground arith)

get_on_site :
    (p x w u : Bool) → (p ≡ true → (x ≡ true) × (w ≡ false) × (u ≡ true)) → w ≡ true → p ≡ false
get_on_site true x w u h e = let (k, n, l) = h refl in cc
get_on_site false x w u h e = refl

module _ (unescape decode : String → Option String) (op : Op) where
  site_or_api :
      (b : Bool) (prov : Provider) (t : Template)
      → Holds (if b then web_destination op t else api_destination op prov t)
      → ((b ≡ false)
          → ((t.scheme == "https") ≡ true)
            × (contains prov.hosts t.host ≡ true)
            × ((not (is_exchange op.class) || op.url == token_url) ≡ true))
        × ((b ≡ true) → (is_no_auth op.auth ≡ true) × (is_read op.class ≡ true))
  unfolding web_destination api_destination
  site_or_api true prov t h = (λ e. cc, λ e. (h.1.0, h.1.1.0))
  site_or_api false prov t h = (λ e. (h.0, and-second _ _ h.1.0, h.1.1.1.0), λ e. cc)

  -- The facts of the steps give the conclusion.
  exchange_not_read : is_exchange op.class ≡ true → is_read op.class ≡ false
  unfolding is_exchange is_read
  exchange_not_read h = ground arith

  parts-IsSafe :
      Holds (declaration unescape op (map_get providers op.provider))
      → Holds (destination op (provider_of op) (template op.url))
      → Holds (subject_checks decode op (provider_of op) (template op.url))
      → IsSafe unescape (record {
        op = op;
        template = template op.url;
        subject = subject_of op (provider_of op) (template op.url);
      })
  unfolding declaration destination subject_checks
  parts-IsSafe d p s =
      let web : Bool = (provider_of op).web in
      let (api, site) = site_or_api (provider_of op).web (provider_of op) (template op.url) p in
      let post : (not (is_post op.method) || is_exchange op.class) ≡ true = d.1.1.1.1.0 in
      let harmless : not (never_read_in unescape op.url) ≡ true = d.1.1.1.1.1.1.1.1.0 in
      let posts =
        post_off_site (is_post op.method) (is_exchange op.class) web (is_read op.class)
          (op.url == token_url) post exchange_not_read (λ e. (site e).1) (λ e. (api e).2) in
      record {
        posts = elim (Bool-cases (is_post op.method)) [ inl e ↦ inr (posts e) | inr e ↦ inl e ];
        placed = elim (Bool-cases web) [
          | inl e ↦ inr (record {
            site = e;
            bare = (site e).0;
            reads = (site e).1;
            no_post = get_on_site _ _ _ _ posts e;
          })
          | inr e ↦ inl (record { api = e; secure = (api e).0; hosted = (api e).1 })
        ];
        aimed = (All-second _ _ (_ ∷ _ ∷ []) s.1.1).0;
        harmless = ground arith;
      }

  -- An operation that validation accepts as far as its response reads no URL that returns credentials, and is either an
  -- API's, over https to a host of its provider, or a site's, a read without a credential; a POST is the exchange of
  -- credentials at the token endpoint; and each placeholder that picks the target stands in the subject, or is one of
  -- the parameters that may vary within it.
  pub validate-IsSafe : Ensures (IsSafe unescape) (validate unescape decode op)
  unfolding validate
  validate-IsSafe = check_then _ _ _ λ d. check_then _ _ _ λ shaped. check_then _ _ _ λ typed.
      check_then _ _ _ λ p.
        check_then _ _ _
          λ used. check_then _ _ _ λ s. check_then _ _ _ λ all_used. parts-IsSafe d p s
