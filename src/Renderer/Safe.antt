-- ===== src/Renderer/Safe.antt =====
-- Which links and images ui/web/src/components/chat/ReportRenderer.tsx lets through, and its icons.
use temporal_loom.Prelude.{
  ◌||◌, List, [], ◌∷◌, Option, none, some, Text, text, is_empty, starts_with, contains,
  contains_text, lower, if◌then◌else◌,
}

abbrev pub href_protocols : List Text
href_protocols = text "http:" ∷ text "https:" ∷ text "mailto:" ∷ []

abbrev pub image_protocols : List Text
image_protocols = text "http:" ∷ text "https:" ∷ []

abbrev if_allowed : List Text → Text → Option Text → Text
if_allowed allowed value none = []
if_allowed allowed value (some protocol) = if contains allowed protocol then value else []

-- The protocol of `new URL(value)`, or its exception, is an argument.
module _ (protocol_of : Text → Option Text) where
  unfoldable pub safe_href : Text → Text
  unfolding starts_with
  safe_href value =
      if is_empty value
      then []
      else if starts_with value (text "#") || starts_with value (text "/")
      then value
      else if_allowed href_protocols value (protocol_of value)

  unfoldable pub safe_image_src : Text → Text
  unfolding starts_with
  safe_image_src value =
      if is_empty value
      then []
      else if starts_with value (text "data:image/")
      then value
      else if_allowed image_protocols value (protocol_of value)

pub data Icon : Type 0 where
  check triangle_alert x image external_link star more_horizontal info : Icon

unfoldable pub icon_for : Text → Icon
unfolding lower contains_text
icon_for name =
    let s = lower name in
    if contains_text s (text "check") || contains_text s (text "success")
    then check
    else if contains_text s (text "alert") || contains_text s (text "warning")
    then triangle_alert
    else if contains_text s (text "error") || contains_text s (text "x")
    then x
    else if contains_text s (text "image")
    then image
    else if contains_text s (text "external") || contains_text s (text "link")
    then external_link
    else if contains_text s (text "star") || contains_text s (text "rating")
    then star
    else if contains_text s (text "more") || contains_text s (text "menu")
    then more_horizontal
    else info
