-- ===== src/Info/RoundTrip.antt =====
-- What parseInfoSection reads out of a reply in the documented format.
use redis_admin.Base.{
  lacks, lacks-append, cut-append, split_crlf-append, ◌≡◌, refl, ap, ◌∙◌, true, false, List, [],
  ◌∷◌, ◌++◌, append_assoc, arith, Str, str, is_empty, has_prefix, trim_space, split_crlf, Dict,
  insert, All,
}
use redis_admin.Info.{section_line, section_lines, parse_info_section}

-- a field as Redis writes it: a name with no colon, which is no comment, and a value; neither has
-- a carriage return or blanks at its ends
pub record IsField (f : Str × Str) : Type 0 where
  pub named : is_empty f.0 ≡ false
  pub not_comment : has_prefix f.0 (str "#") ≡ false
  pub no_colon : lacks b':' f.0 ≡ true
  pub one_line : lacks 13 f.0 ≡ true
  pub one_line_value : lacks 13 f.1 ≡ true
  pub trimmed : trim_space f.0 ≡ f.0
  pub trimmed_value : trim_space f.1 ≡ f.1

-- "name:value\r\n" for each field
unfoldable pub render : List (Str × Str) → Str
render [] = []
render ((k, v) ∷ fs) = k ++ (b':' ∷ (v ++ (13 ∷ 10 ∷ render fs)))

-- the assignments to the map, in order
unfoldable pub insert_all : Dict Str → List (Str × Str) → Dict Str
insert_all out [] = out
insert_all out ((k, v) ∷ fs) = insert_all (insert k v out) fs

section_line-field :
    (out : Dict Str) (k v : Str)
    → IsField (k, v)
    → section_line out (k ++ b':' ∷ v) ≡ insert k v out
unfolding section_line
section_line-field out [] v f = cc
section_line-field out (c ∷ k) v f = ground (arith, cut-append b':' k v, f.trimmed, f.trimmed_value)

lacks-field : (k v : Str) → IsField (k, v) → lacks 13 (k ++ b':' ∷ v) ≡ true
lacks-field k v f = lacks-append 13 k (b':' ∷ v) f.one_line (ground arith)

split_crlf-render :
    (k v : Str) (fs : List (Str × Str))
    → IsField (k, v)
    → split_crlf (render ((k, v) ∷ fs)) ≡ (k ++ b':' ∷ v) ∷ split_crlf (render fs)
unfolding render
split_crlf-render k v fs f =
    rw (← append_assoc k (b':' ∷ v) (13 ∷ 10 ∷ render fs))
      (split_crlf-append (k ++ b':' ∷ v) (render fs) (lacks-field k v f))

section_lines-render :
    (out : Dict Str) (fs : List (Str × Str))
    → All IsField fs
    → section_lines out (split_crlf (render fs)) ≡ insert_all out fs
unfolding section_lines insert_all
section_lines-render out [] h = unfold render split_crlf section_line in refl
section_lines-render out ((k, v) ∷ fs) h =
    ap (section_lines out) (split_crlf-render k v fs h.0)
    ∙ ap (λ d. section_lines d (split_crlf (render fs))) (section_line-field out k v h.0)
    ∙ section_lines-render (insert k v out) fs h.1

-- Fields that are written in the format of INFO are read back: the map holds exactly the
-- assignments of the fields, in order, so that the last one counts.
pub parse_info_section-render :
    (fs : List (Str × Str)) → All IsField fs → parse_info_section (render fs) ≡ insert_all [] fs
unfolding parse_info_section
parse_info_section-render fs h = section_lines-render [] fs h
