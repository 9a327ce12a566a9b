-- ===== src/Archive.antt =====
-- compress/gzip, archive/tar and gopkg.in/yaml.v3, as parameters. Opening a bundle
-- gives what the calls of `tar.Reader.Next` return, up to the end of the archive.
use nebula_gc.Prelude.{ℕ, String, Bool, Option, List}

pub data TypeFlag : Type 0 where
  regular directory special : TypeFlag

pub record Header : Type 0 where
  pub name : String
  pub type_flag : TypeFlag
  pub size : ℕ
  -- what reading the entry to its end gives; `none` is an error
  pub content : Option (List ℕ)

pub data Next : Type 0 where
  entry : Header → Next
  broken : Next

pub record Archiver : Type 0 where
  -- gzip.NewReader, then the tar entries; `none` if the bytes are no gzip stream
  pub gunzip : List ℕ → Option (List Next)
  -- yaml.Unmarshal returns no error
  pub parse_yaml : List ℕ → Bool
