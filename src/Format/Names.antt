-- ===== src/Format/Names.antt =====
-- crates/gputools-replay-hl/src/format.rs: `name`, `texture_type_name` and `usage_flag_names`.
use Prim.Native.Nat.{bit_and}
use gputools_replay.Prelude.{
  ℕ, ◌^◌, ◌%◌, String, Option, none, some, List, [], ◌∷◌, ◌==◌, if◌then◌else◌,
}
use gputools_replay.Format.{match_arms}

abbrev pub name_arms : List (ℕ × Option String)
name_arms =
    (1, some "A8Unorm")
    ∷ (10, some "R8Unorm")
    ∷ (11, some "R8Unorm_sRGB")
    ∷ (12, some "R8Snorm")
    ∷ (13, some "R8Uint")
    ∷ (14, some "R8Sint")
    ∷ (20, some "R16Unorm")
    ∷ (22, some "R16Snorm")
    ∷ (23, some "R16Uint")
    ∷ (24, some "R16Sint")
    ∷ (25, some "R16Float")
    ∷ (53, some "R32Uint")
    ∷ (54, some "R32Sint")
    ∷ (55, some "R32Float")
    ∷ (30, some "RG8Unorm")
    ∷ (31, some "RG8Unorm_sRGB")
    ∷ (32, some "RG8Snorm")
    ∷ (33, some "RG8Uint")
    ∷ (34, some "RG8Sint")
    ∷ (60, some "RG16Unorm")
    ∷ (62, some "RG16Snorm")
    ∷ (63, some "RG16Uint")
    ∷ (64, some "RG16Sint")
    ∷ (65, some "RG16Float")
    ∷ (103, some "RG32Uint")
    ∷ (104, some "RG32Sint")
    ∷ (105, some "RG32Float")
    ∷ (40, some "B5G6R5Unorm")
    ∷ (41, some "A1BGR5Unorm")
    ∷ (42, some "ABGR4Unorm")
    ∷ (43, some "BGR5A1Unorm")
    ∷ (70, some "RGBA8Unorm")
    ∷ (71, some "RGBA8Unorm_sRGB")
    ∷ (72, some "RGBA8Snorm")
    ∷ (73, some "RGBA8Uint")
    ∷ (74, some "RGBA8Sint")
    ∷ (80, some "BGRA8Unorm")
    ∷ (81, some "BGRA8Unorm_sRGB")
    ∷ (90, some "RGB10A2Unorm")
    ∷ (91, some "RGB10A2Uint")
    ∷ (92, some "RG11B10Float")
    ∷ (93, some "RGB9E5Float")
    ∷ (94, some "BGR10A2Unorm")
    ∷ (110, some "RGBA16Unorm")
    ∷ (112, some "RGBA16Snorm")
    ∷ (113, some "RGBA16Uint")
    ∷ (114, some "RGBA16Sint")
    ∷ (115, some "RGBA16Float")
    ∷ (123, some "RGBA32Uint")
    ∷ (124, some "RGBA32Sint")
    ∷ (125, some "RGBA32Float")
    ∷ (130, some "BC1_RGBA")
    ∷ (131, some "BC1_RGBA_sRGB")
    ∷ (132, some "BC2_RGBA")
    ∷ (133, some "BC2_RGBA_sRGB")
    ∷ (134, some "BC3_RGBA")
    ∷ (135, some "BC3_RGBA_sRGB")
    ∷ (140, some "BC4_RUnorm")
    ∷ (141, some "BC4_RSnorm")
    ∷ (142, some "BC5_RGUnorm")
    ∷ (143, some "BC5_RGSnorm")
    ∷ (150, some "BC6H_RGBFloat")
    ∷ (151, some "BC6H_RGBUfloat")
    ∷ (152, some "BC7_RGBAUnorm")
    ∷ (153, some "BC7_RGBAUnorm_sRGB")
    ∷ (160, some "PVRTC_RGB_2BPP")
    ∷ (161, some "PVRTC_RGB_2BPP_sRGB")
    ∷ (162, some "PVRTC_RGB_4BPP")
    ∷ (163, some "PVRTC_RGB_4BPP_sRGB")
    ∷ (164, some "PVRTC_RGBA_2BPP")
    ∷ (165, some "PVRTC_RGBA_2BPP_sRGB")
    ∷ (166, some "PVRTC_RGBA_4BPP")
    ∷ (167, some "PVRTC_RGBA_4BPP_sRGB")
    ∷ (170, some "EAC_R11Unorm")
    ∷ (172, some "EAC_R11Snorm")
    ∷ (174, some "EAC_RG11Unorm")
    ∷ (176, some "EAC_RG11Snorm")
    ∷ (178, some "EAC_RGBA8")
    ∷ (179, some "EAC_RGBA8_sRGB")
    ∷ (180, some "ETC2_RGB8")
    ∷ (181, some "ETC2_RGB8_sRGB")
    ∷ (182, some "ETC2_RGB8A1")
    ∷ (183, some "ETC2_RGB8A1_sRGB")
    ∷ (186, some "ASTC_4x4_sRGB")
    ∷ (187, some "ASTC_5x4_sRGB")
    ∷ (188, some "ASTC_5x5_sRGB")
    ∷ (189, some "ASTC_6x5_sRGB")
    ∷ (190, some "ASTC_6x6_sRGB")
    ∷ (192, some "ASTC_8x5_sRGB")
    ∷ (193, some "ASTC_8x6_sRGB")
    ∷ (194, some "ASTC_8x8_sRGB")
    ∷ (195, some "ASTC_10x5_sRGB")
    ∷ (196, some "ASTC_10x6_sRGB")
    ∷ (197, some "ASTC_10x8_sRGB")
    ∷ (198, some "ASTC_10x10_sRGB")
    ∷ (199, some "ASTC_12x10_sRGB")
    ∷ (200, some "ASTC_12x12_sRGB")
    ∷ (204, some "ASTC_4x4_LDR")
    ∷ (205, some "ASTC_5x4_LDR")
    ∷ (206, some "ASTC_5x5_LDR")
    ∷ (207, some "ASTC_6x5_LDR")
    ∷ (208, some "ASTC_6x6_LDR")
    ∷ (210, some "ASTC_8x5_LDR")
    ∷ (211, some "ASTC_8x6_LDR")
    ∷ (212, some "ASTC_8x8_LDR")
    ∷ (213, some "ASTC_10x5_LDR")
    ∷ (214, some "ASTC_10x6_LDR")
    ∷ (215, some "ASTC_10x8_LDR")
    ∷ (216, some "ASTC_10x10_LDR")
    ∷ (217, some "ASTC_12x10_LDR")
    ∷ (218, some "ASTC_12x12_LDR")
    ∷ (222, some "ASTC_4x4_HDR")
    ∷ (223, some "ASTC_5x4_HDR")
    ∷ (224, some "ASTC_5x5_HDR")
    ∷ (225, some "ASTC_6x5_HDR")
    ∷ (226, some "ASTC_6x6_HDR")
    ∷ (228, some "ASTC_8x5_HDR")
    ∷ (229, some "ASTC_8x6_HDR")
    ∷ (230, some "ASTC_8x8_HDR")
    ∷ (231, some "ASTC_10x5_HDR")
    ∷ (232, some "ASTC_10x6_HDR")
    ∷ (233, some "ASTC_10x8_HDR")
    ∷ (234, some "ASTC_10x10_HDR")
    ∷ (235, some "ASTC_12x10_HDR")
    ∷ (236, some "ASTC_12x12_HDR")
    ∷ (250, some "Depth16Unorm")
    ∷ (252, some "Depth32Float")
    ∷ (253, some "Stencil8")
    ∷ (260, some "Depth32Float_Stencil8")
    ∷ (261, some "X32_Stencil8")
    ∷ (262, some "X24_Stencil8")
    ∷ []

-- `fmt.0 as u32` keeps the low 32 bits of the `NSUInteger`.
unfoldable pub name : ℕ → Option String
name fmt = match_arms (fmt % 2 ^ 32) name_arms none

unfoldable pub texture_type_name : ℕ → Option String
texture_type_name t =
    match_arms t
      ((0, some "Type1D")
        ∷ (1, some "Type1DArray")
        ∷ (2, some "Type2D")
        ∷ (3, some "Type2DArray")
        ∷ (4, some "Type2DMultisample")
        ∷ (5, some "TypeCube")
        ∷ (6, some "TypeCubeArray")
        ∷ (7, some "Type3D")
        ∷ (8, some "Type2DMultisampleArray")
        ∷ (9, some "TypeTextureBuffer")
        ∷ [])
      none

abbrev flags : List (ℕ × String)
flags =
    (0x0001, "ShaderRead")
    ∷ (0x0002, "ShaderWrite")
    ∷ (0x0004, "RenderTarget")
    ∷ (0x0010, "PixelFormatView")
    ∷ (0x0020, "ShaderAtomic")
    ∷ []

-- `FLAGS.iter().filter(|(bit, _)| raw & bit != 0).map(|(_, name)| name)`
unfoldable pub set_flags : ℕ → List (ℕ × String) → List String
set_flags raw [] = []
set_flags raw ((bit, flag) ∷ rest) =
    let more = set_flags raw rest in if bit_and raw bit == 0 then more else flag ∷ more

unfoldable pub usage_flag_names : ℕ → List String
unfolding set_flags
usage_flag_names raw = set_flags raw flags
