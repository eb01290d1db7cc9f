-- ===== src/Component/Value.antt =====
-- httpsig/src/message_component/component_value.rs
use httpsig_rs.Base.{String, Option, none, some, ◌<>◌}

pub data HttpMessageComponentValueInner : Type 0 where
  string : String → HttpMessageComponentValueInner
  key_value : String → String → HttpMessageComponentValueInner

pub record HttpMessageComponentValue : Type 0 where
  pub inner : HttpMessageComponentValueInner

-- `From<&str>`
abbrev pub value_from_str : String → HttpMessageComponentValue
value_from_str val = record { inner = HttpMessageComponentValueInner.string val }

-- `From<(&str, &str)>`
abbrev pub value_from_pair : String → String → HttpMessageComponentValue
value_from_pair key val = record { inner = HttpMessageComponentValueInner.key_value key val }

unfoldable pub inner_to_string : HttpMessageComponentValueInner → String
inner_to_string (HttpMessageComponentValueInner.string val) = val
inner_to_string (HttpMessageComponentValueInner.key_value _ val) = val

unfoldable pub value_to_string : HttpMessageComponentValue → String
unfolding inner_to_string
value_to_string v = inner_to_string v.inner

inner_key : HttpMessageComponentValueInner → Option String
inner_key (HttpMessageComponentValueInner.string _) = none
inner_key (HttpMessageComponentValueInner.key_value key _) = some key

unfoldable pub value_key : HttpMessageComponentValue → Option String
unfolding inner_key
value_key v = inner_key v.inner

inner_as_field_value : HttpMessageComponentValueInner → String
unfolding ◌<>◌
inner_as_field_value (HttpMessageComponentValueInner.string val) = val
inner_as_field_value (HttpMessageComponentValueInner.key_value key val) = key <> "=" <> val

unfoldable pub as_field_value : HttpMessageComponentValue → String
unfolding inner_as_field_value
as_field_value v = inner_as_field_value v.inner

unfoldable pub as_component_value : HttpMessageComponentValue → String
unfolding inner_to_string
as_component_value v = inner_to_string v.inner
