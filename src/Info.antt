-- ===== src/Info.antt =====
-- The parsers of INFO replies: parseInfoSection of internal/sentinel/topology.go and
-- internal/diagnostics/pipeline.go, parseInfoAll of internal/diagnostics/memory.go, parseInfo with
-- splitLines and cutColon of internal/replication, and parseInfoKV of internal/operations/failover.go
-- and internal/metrics/helpers.go. The laws are in the module below.
pub mod Equivalence
pub mod RoundTrip
use redis_admin.Base.{
  ◌≡◌, refl, Bool, true, false, ◌||◌, Option, none, some, List, [], ◌∷◌, Str, str, is_empty,
  has_prefix, trim_space, split_crlf, cut, Dict, insert, if◌then◌else◌,
}

abbrev put_pair : Dict Str → Option (Str × Str) → Dict Str
put_pair out none = out
put_pair out (some (k, v)) = insert (trim_space k) (trim_space v) out

-- one round of the loop of parseInfoSection
unfoldable pub section_line : Dict Str → Str → Dict Str
unfolding has_prefix cut
section_line result line =
    if has_prefix line (str "#") || is_empty line then result else put_pair result (cut b':' line)

section_lines : Dict Str → List Str → Dict Str
unfolding section_line
section_lines result [] = result
section_lines result (line ∷ lines) = section_lines (section_line result line) lines

unfoldable pub parse_info_section : Str → Dict Str
unfolding section_lines split_crlf
parse_info_section raw = section_lines [] (split_crlf raw)

-- one round of the loop of parseInfoAll
abbrev all_cut : Dict Str → Option (Str × Str) → Dict Str
all_cut out none = out
all_cut out (some (k, v)) =
    if has_prefix k (str "#") then out else insert (trim_space k) (trim_space v) out

all_line : Dict Str → Str → Dict Str
unfolding cut
all_line out line = all_cut out (cut b':' line)

all_lines : Dict Str → List Str → Dict Str
unfolding all_line
all_lines out [] = out
all_lines out (line ∷ lines) = all_lines (all_line out line) lines

unfoldable pub parse_info_all : Str → Dict Str
unfolding all_lines split_crlf
parse_info_all raw = all_lines [] (split_crlf raw)

-- splitLines
keep_lines : List Str → List Str
unfolding trim_space has_prefix
keep_lines [] = []
keep_lines (line ∷ lines) =
    let trimmed = trim_space line in
    let rest = keep_lines lines in
    if is_empty trimmed || has_prefix trimmed (str "#") then rest else trimmed ∷ rest

unfoldable pub split_lines : Str → List Str
unfolding keep_lines split_crlf
split_lines raw = keep_lines (split_crlf raw)

-- cutColon
abbrev trim_pair : Option (Str × Str) → Option (Str × Str)
trim_pair none = none
trim_pair (some (k, v)) = some (trim_space k, trim_space v)

unfoldable pub cut_colon : Str → Option (Str × Str)
unfolding cut trim_space
cut_colon s = trim_pair (cut b':' s)

abbrev put_cut : Dict Str → Option (Str × Str) → Dict Str
put_cut out none = out
put_cut out (some (k, v)) = insert k v out

info_lines : Dict Str → List Str → Dict Str
unfolding cut_colon
info_lines out [] = out
info_lines out (line ∷ lines) = info_lines (put_cut out (cut_colon line)) lines

unfoldable pub parse_info : Str → Dict Str
unfolding info_lines split_lines
parse_info raw = info_lines [] (split_lines raw)

-- one round of the loop of parseInfoKV
kv_line : Dict Str → Str → Dict Str
unfolding trim_space has_prefix cut
kv_line out line =
    let trimmed = trim_space line in
    if is_empty trimmed || has_prefix trimmed (str "#")
    then out
    else put_pair out (cut b':' trimmed)

kv_lines : Dict Str → List Str → Dict Str
unfolding kv_line
kv_lines out [] = out
kv_lines out (line ∷ lines) = kv_lines (kv_line out line) lines

unfoldable pub parse_info_kv : Str → Dict Str
unfolding kv_lines split_crlf
parse_info_kv raw = kv_lines [] (split_crlf raw)
