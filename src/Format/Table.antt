-- ===== src/Format/Table.antt =====
-- crates/gputools-replay-hl/src/format.rs: `format_kind`, arm by arm.
use gputools_replay.Prelude.{ℕ, none, some, List, [], ◌∷◌, ◌++◌, true, false}
use gputools_replay.Format.{
  Component, r, g, b, a, Channel, ColorFormat, unorm, snorm, float, uint, sint, shared_exponent,
  unorm16, float32, uint8, astc, etc2, eac, pvrtc, bc, FormatKind, color, depth_stencil, compressed,
  unknown, color_format, depth_stencil_format, compressed_format, match_arms,
}

abbrev ch : Component → ℕ → Channel
ch component bits = record { component = component; bits = bits }

abbrev a8_channels : List Channel
a8_channels = ch a 8 ∷ []

abbrev r8_channels : List Channel
r8_channels = ch r 8 ∷ []

abbrev rg8_channels : List Channel
rg8_channels = ch r 8 ∷ ch g 8 ∷ []

abbrev rgba8_channels : List Channel
rgba8_channels = ch r 8 ∷ ch g 8 ∷ ch b 8 ∷ ch a 8 ∷ []

abbrev pub bgra8_channels : List Channel
bgra8_channels = ch b 8 ∷ ch g 8 ∷ ch r 8 ∷ ch a 8 ∷ []

abbrev r16_channels : List Channel
r16_channels = ch r 16 ∷ []

abbrev rg16_channels : List Channel
rg16_channels = ch r 16 ∷ ch g 16 ∷ []

abbrev rgba16_channels : List Channel
rgba16_channels = ch r 16 ∷ ch g 16 ∷ ch b 16 ∷ ch a 16 ∷ []

abbrev r32_channels : List Channel
r32_channels = ch r 32 ∷ []

abbrev rg32_channels : List Channel
rg32_channels = ch r 32 ∷ ch g 32 ∷ []

abbrev rgba32_channels : List Channel
rgba32_channels = ch r 32 ∷ ch g 32 ∷ ch b 32 ∷ ch a 32 ∷ []

abbrev b5g6r5_channels : List Channel
b5g6r5_channels = ch b 5 ∷ ch g 6 ∷ ch r 5 ∷ []

abbrev a1bgr5_channels : List Channel
a1bgr5_channels = ch a 1 ∷ ch b 5 ∷ ch g 5 ∷ ch r 5 ∷ []

abbrev abgr4_channels : List Channel
abgr4_channels = ch a 4 ∷ ch b 4 ∷ ch g 4 ∷ ch r 4 ∷ []

abbrev bgr5a1_channels : List Channel
bgr5a1_channels = ch b 5 ∷ ch g 5 ∷ ch r 5 ∷ ch a 1 ∷ []

abbrev rgb10a2_channels : List Channel
rgb10a2_channels = ch r 10 ∷ ch g 10 ∷ ch b 10 ∷ ch a 2 ∷ []

abbrev bgr10a2_channels : List Channel
bgr10a2_channels = ch b 10 ∷ ch g 10 ∷ ch r 10 ∷ ch a 2 ∷ []

abbrev rg11b10_channels : List Channel
rg11b10_channels = ch r 11 ∷ ch g 11 ∷ ch b 10 ∷ []

abbrev rgb9e5_channels : List Channel
rgb9e5_channels = ch r 9 ∷ ch g 9 ∷ ch b 9 ∷ []

-- RGB9E5Float: three mantissas and an exponent that belongs to no channel.
abbrev rgb9e5_float : ColorFormat
rgb9e5_float = record {
  channels = rgb9e5_channels;
  numeric = shared_exponent;
  srgb = false;
  bytes_per_pixel = 4;
  byte_aligned = false;
}

abbrev color_arms : List (ℕ × FormatKind)
color_arms =
    (1, color (color_format a8_channels unorm false))
    ∷ (10, color (color_format r8_channels unorm false))
    ∷ (11, color (color_format r8_channels unorm true))
    ∷ (12, color (color_format r8_channels snorm false))
    ∷ (13, color (color_format r8_channels uint false))
    ∷ (14, color (color_format r8_channels sint false))
    ∷ (20, color (color_format r16_channels unorm false))
    ∷ (22, color (color_format r16_channels snorm false))
    ∷ (23, color (color_format r16_channels uint false))
    ∷ (24, color (color_format r16_channels sint false))
    ∷ (25, color (color_format r16_channels float false))
    ∷ (53, color (color_format r32_channels uint false))
    ∷ (54, color (color_format r32_channels sint false))
    ∷ (55, color (color_format r32_channels float false))
    ∷ (30, color (color_format rg8_channels unorm false))
    ∷ (31, color (color_format rg8_channels unorm true))
    ∷ (32, color (color_format rg8_channels snorm false))
    ∷ (33, color (color_format rg8_channels uint false))
    ∷ (34, color (color_format rg8_channels sint false))
    ∷ (60, color (color_format rg16_channels unorm false))
    ∷ (62, color (color_format rg16_channels snorm false))
    ∷ (63, color (color_format rg16_channels uint false))
    ∷ (64, color (color_format rg16_channels sint false))
    ∷ (65, color (color_format rg16_channels float false))
    ∷ (103, color (color_format rg32_channels uint false))
    ∷ (104, color (color_format rg32_channels sint false))
    ∷ (105, color (color_format rg32_channels float false))
    ∷ (40, color (color_format b5g6r5_channels unorm false))
    ∷ (41, color (color_format a1bgr5_channels unorm false))
    ∷ (42, color (color_format abgr4_channels unorm false))
    ∷ (43, color (color_format bgr5a1_channels unorm false))
    ∷ (70, color (color_format rgba8_channels unorm false))
    ∷ (71, color (color_format rgba8_channels unorm true))
    ∷ (72, color (color_format rgba8_channels snorm false))
    ∷ (73, color (color_format rgba8_channels uint false))
    ∷ (74, color (color_format rgba8_channels sint false))
    ∷ (80, color (color_format bgra8_channels unorm false))
    ∷ (81, color (color_format bgra8_channels unorm true))
    ∷ (90, color (color_format rgb10a2_channels unorm false))
    ∷ (91, color (color_format rgb10a2_channels uint false))
    ∷ (92, color (color_format rg11b10_channels float false))
    ∷ (93, color rgb9e5_float)
    ∷ (94, color (color_format bgr10a2_channels unorm false))
    ∷ (110, color (color_format rgba16_channels unorm false))
    ∷ (112, color (color_format rgba16_channels snorm false))
    ∷ (113, color (color_format rgba16_channels uint false))
    ∷ (114, color (color_format rgba16_channels sint false))
    ∷ (115, color (color_format rgba16_channels float false))
    ∷ (123, color (color_format rgba32_channels uint false))
    ∷ (124, color (color_format rgba32_channels sint false))
    ∷ (125, color (color_format rgba32_channels float false))
    ∷ []

abbrev compressed_arms : List (ℕ × FormatKind)
compressed_arms =
    (130, compressed (compressed_format bc (4, 4) 8 false))
    ∷ (131, compressed (compressed_format bc (4, 4) 8 true))
    ∷ (132, compressed (compressed_format bc (4, 4) 16 false))
    ∷ (133, compressed (compressed_format bc (4, 4) 16 true))
    ∷ (134, compressed (compressed_format bc (4, 4) 16 false))
    ∷ (135, compressed (compressed_format bc (4, 4) 16 true))
    ∷ (140, compressed (compressed_format bc (4, 4) 8 false))
    ∷ (141, compressed (compressed_format bc (4, 4) 8 false))
    ∷ (142, compressed (compressed_format bc (4, 4) 16 false))
    ∷ (143, compressed (compressed_format bc (4, 4) 16 false))
    ∷ (150, compressed (compressed_format bc (4, 4) 16 false))
    ∷ (151, compressed (compressed_format bc (4, 4) 16 false))
    ∷ (152, compressed (compressed_format bc (4, 4) 16 false))
    ∷ (153, compressed (compressed_format bc (4, 4) 16 true))
    ∷ (160, compressed (compressed_format pvrtc (8, 4) 8 false))
    ∷ (161, compressed (compressed_format pvrtc (8, 4) 8 true))
    ∷ (162, compressed (compressed_format pvrtc (4, 4) 8 false))
    ∷ (163, compressed (compressed_format pvrtc (4, 4) 8 true))
    ∷ (164, compressed (compressed_format pvrtc (8, 4) 8 false))
    ∷ (165, compressed (compressed_format pvrtc (8, 4) 8 true))
    ∷ (166, compressed (compressed_format pvrtc (4, 4) 8 false))
    ∷ (167, compressed (compressed_format pvrtc (4, 4) 8 true))
    ∷ (170, compressed (compressed_format eac (4, 4) 8 false))
    ∷ (172, compressed (compressed_format eac (4, 4) 8 false))
    ∷ (174, compressed (compressed_format eac (4, 4) 16 false))
    ∷ (176, compressed (compressed_format eac (4, 4) 16 false))
    ∷ (178, compressed (compressed_format eac (4, 4) 16 false))
    ∷ (179, compressed (compressed_format eac (4, 4) 16 true))
    ∷ (180, compressed (compressed_format etc2 (4, 4) 8 false))
    ∷ (181, compressed (compressed_format etc2 (4, 4) 8 true))
    ∷ (182, compressed (compressed_format etc2 (4, 4) 8 false))
    ∷ (183, compressed (compressed_format etc2 (4, 4) 8 true))
    ∷ (186, compressed (compressed_format astc (4, 4) 16 true))
    ∷ (187, compressed (compressed_format astc (5, 4) 16 true))
    ∷ (188, compressed (compressed_format astc (5, 5) 16 true))
    ∷ (189, compressed (compressed_format astc (6, 5) 16 true))
    ∷ (190, compressed (compressed_format astc (6, 6) 16 true))
    ∷ (192, compressed (compressed_format astc (8, 5) 16 true))
    ∷ (193, compressed (compressed_format astc (8, 6) 16 true))
    ∷ (194, compressed (compressed_format astc (8, 8) 16 true))
    ∷ (195, compressed (compressed_format astc (10, 5) 16 true))
    ∷ (196, compressed (compressed_format astc (10, 6) 16 true))
    ∷ (197, compressed (compressed_format astc (10, 8) 16 true))
    ∷ (198, compressed (compressed_format astc (10, 10) 16 true))
    ∷ (199, compressed (compressed_format astc (12, 10) 16 true))
    ∷ (200, compressed (compressed_format astc (12, 12) 16 true))
    ∷ (204, compressed (compressed_format astc (4, 4) 16 false))
    ∷ (205, compressed (compressed_format astc (5, 4) 16 false))
    ∷ (206, compressed (compressed_format astc (5, 5) 16 false))
    ∷ (207, compressed (compressed_format astc (6, 5) 16 false))
    ∷ (208, compressed (compressed_format astc (6, 6) 16 false))
    ∷ (210, compressed (compressed_format astc (8, 5) 16 false))
    ∷ (211, compressed (compressed_format astc (8, 6) 16 false))
    ∷ (212, compressed (compressed_format astc (8, 8) 16 false))
    ∷ (213, compressed (compressed_format astc (10, 5) 16 false))
    ∷ (214, compressed (compressed_format astc (10, 6) 16 false))
    ∷ (215, compressed (compressed_format astc (10, 8) 16 false))
    ∷ (216, compressed (compressed_format astc (10, 10) 16 false))
    ∷ (217, compressed (compressed_format astc (12, 10) 16 false))
    ∷ (218, compressed (compressed_format astc (12, 12) 16 false))
    ∷ (222, compressed (compressed_format astc (4, 4) 16 false))
    ∷ (223, compressed (compressed_format astc (5, 4) 16 false))
    ∷ (224, compressed (compressed_format astc (5, 5) 16 false))
    ∷ (225, compressed (compressed_format astc (6, 5) 16 false))
    ∷ (226, compressed (compressed_format astc (6, 6) 16 false))
    ∷ (228, compressed (compressed_format astc (8, 5) 16 false))
    ∷ (229, compressed (compressed_format astc (8, 6) 16 false))
    ∷ (230, compressed (compressed_format astc (8, 8) 16 false))
    ∷ (231, compressed (compressed_format astc (10, 5) 16 false))
    ∷ (232, compressed (compressed_format astc (10, 6) 16 false))
    ∷ (233, compressed (compressed_format astc (10, 8) 16 false))
    ∷ (234, compressed (compressed_format astc (10, 10) 16 false))
    ∷ (235, compressed (compressed_format astc (12, 10) 16 false))
    ∷ (236, compressed (compressed_format astc (12, 12) 16 false))
    ∷ []

abbrev depth_stencil_arms : List (ℕ × FormatKind)
depth_stencil_arms =
    (250, depth_stencil (depth_stencil_format (some unorm16) none 2))
    ∷ (252, depth_stencil (depth_stencil_format (some float32) none 4))
    ∷ (253, depth_stencil (depth_stencil_format none (some uint8) 1))
    ∷ (260, depth_stencil (depth_stencil_format (some float32) (some uint8) 8))
    ∷ (261, depth_stencil (depth_stencil_format none (some uint8) 8))
    ∷ (262, depth_stencil (depth_stencil_format none (some uint8) 4))
    ∷ []

abbrev pub format_arms : List (ℕ × FormatKind)
format_arms = color_arms ++ compressed_arms ++ depth_stencil_arms

unfoldable pub format_kind : ℕ → FormatKind
format_kind raw = match_arms raw format_arms unknown
