-- ===== src/Info/Equivalence.antt =====
-- The parsers of INFO, compared with each other.
use redis_admin.Base.{
  ◌≡◌, refl, ap, ◌∙◌, Option, none, some, List, [], ◌∷◌, arith, Str, trim_space, split_crlf, cut,
  Dict,
}
use redis_admin.Info.{
  put_pair, section_line, section_lines, parse_info_section, all_line, all_lines, parse_info_all,
  keep_lines, split_lines, trim_pair, put_cut, info_lines, parse_info, kv_lines, parse_info_kv,
}

-- the part before the colon begins with `#` exactly when the line does
all_line-section_line : (out : Dict Str) (line : Str) → all_line out line ≡ section_line out line
unfolding all_line section_line
all_line-section_line out [] = refl
all_line-section_line out (c ∷ s) = ground arith

lines_equal : (out : Dict Str) (lines : List Str) → all_lines out lines ≡ section_lines out lines
unfolding all_lines section_lines
lines_equal out [] = refl
lines_equal out (line ∷ lines) =
    ap (λ d. all_lines d lines) (all_line-section_line out line)
    ∙ lines_equal (section_line out line) lines

-- parseInfoAll and parseInfoSection return the same map, whatever the reply.
parse_info_all-parse_info_section : (raw : Str) → parse_info_all raw ≡ parse_info_section raw
unfolding parse_info_all parse_info_section
parse_info_all-parse_info_section raw = lines_equal [] (split_crlf raw)

put_trimmed : (out : Dict Str) (p : Option (Str × Str)) → put_cut out (trim_pair p) ≡ put_pair out p
put_trimmed out none = refl
put_trimmed out (some (k, v)) = refl

info_lines-keep_lines :
    (out : Dict Str) (lines : List Str) → info_lines out (keep_lines lines) ≡ kv_lines out lines
unfolding info_lines keep_lines kv_lines
info_lines-keep_lines out [] = refl
info_lines-keep_lines out (line ∷ lines) = ground (
  arith,
  info_lines-keep_lines out lines,
  info_lines-keep_lines (put_pair out (cut b':' (trim_space line))) lines,
  put_trimmed out (cut b':' (trim_space line)),
)

-- parseInfo, with splitLines and cutColon, and parseInfoKV return the same map, whatever the reply.
pub parse_info-parse_info_kv : (raw : Str) → parse_info raw ≡ parse_info_kv raw
unfolding parse_info parse_info_kv split_lines
parse_info-parse_info_kv raw = info_lines-keep_lines [] (split_crlf raw)

-- The parsers of INFO agree in pairs, whatever the reply: parseInfoAll with parseInfoSection, and
-- parseInfo, with splitLines and cutColon, with parseInfoKV.
parsers_agree :
    (raw : Str)
    → (parse_info_all raw ≡ parse_info_section raw) × (parse_info raw ≡ parse_info_kv raw)
parsers_agree raw = (parse_info_all-parse_info_section raw, parse_info-parse_info_kv raw)
