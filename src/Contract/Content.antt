-- ===== src/Contract/Content.antt =====
-- Content blocks (src/contract/content.ts). Texts that the schemas bound in length or by a pattern
-- are texts.
use mosoo_agent_driver.Base.{
  ℕ, String, Bool, true, false, Option, List, [], ◌∷◌, ◌++◌, any, String-discrete, ℕ_discrete, Json,
}

pub record BlobRef : Type 0 where
  pub blob_id : String
  pub media_type : String
  pub size_bytes : ℕ
  pub digest : String
  pub name : Option String

pub BlobRef-discrete : Discrete BlobRef
BlobRef-discrete = hlevel (String-discrete, ℕ_discrete)

pub data ContentBlock : Type 0 where
  text : String → ContentBlock
  json : Json → ContentBlock
  -- the media type, the data, the name and the alternative text
  inline_blob : String → String → Option String → Option String → ContentBlock
  blob_ref : BlobRef → Option String → ContentBlock
  -- the address, the name, the media type and the digest
  resource_link : String → Option String → Option String → Option String → ContentBlock
  -- the name, the value and the extensions
  extension : String → Json → Option Json → ContentBlock

pub ContentBlock-discrete : Discrete ContentBlock
ContentBlock-discrete = hlevel (BlobRef-discrete, String-discrete)

abbrev is_blob_ref : ContentBlock → Bool
is_blob_ref (blob_ref b alt) = true
is_blob_ref _ = false

unfoldable pub has_blob_ref : List ContentBlock → Bool
has_blob_ref blocks = any is_blob_ref blocks

abbrev name_of : ContentBlock → List String
name_of (extension name value extensions) = name ∷ []
name_of _ = []

unfoldable pub content_extension_names : List ContentBlock → List String
content_extension_names [] = []
content_extension_names (b ∷ bs) = name_of b ++ content_extension_names bs
