-- ===== src/Finding/Judgment.antt =====
-- internal/finding/judgment.go: a collector rule's decision over redacted evidence. Of `Details`,
-- the presence of `superseded_by` is modelled, which is all that grading reads of it.
use scheck.Prelude.{String, Bool, Option, List}
use scheck.Finding.Chain.{Attribute, Chain}

-- `Subject`.
pub record Subject : Type 0 where
  pub kind : String
  pub key : String
  pub label : String
  pub provider_id : String
  pub person : String

-- `FactRead`.
pub record FactRead : Type 0 where
  pub check : String
  pub observation : String
  pub excerpt : String

-- `OfNote`.
pub record OfNote : Type 0 where
  pub key : String
  pub why : String

-- `Judgment`.
pub record Judgment : Type 0 where
  pub id : String
  pub asset : String
  pub subject : Subject
  pub verdict : String
  pub reason : String
  pub reads : List String
  pub excerpt : String
  pub not_checked : List String
  pub attributes : List Attribute
  pub listed : List String
  pub of_note : List OfNote
  pub sources : List String
  pub superseded : Bool
  pub why : String
  pub chain : Option Chain
  pub facts : List FactRead
