-- ===== src/Request.antt =====
-- crates/gputools-replay/src/request.rs: what a fetch asks for.
use gputools_replay.Prelude.{ℕ, Bool}

pub record Point3D : Type 0 where
  pub x : ℕ
  pub y : ℕ
  pub z : ℕ

pub record Size : Type 0 where
  pub width : ℕ
  pub height : ℕ

pub record Region : Type 0 where
  pub origin : Point3D
  pub size : Size

-- `Region::ZERO`
abbrev pub zero_region : Region
zero_region = record {
  origin = record { x = 0; y = 0; z = 0 };
  size = record { width = 0; height = 0 };
}

-- The wire structs `GTSize` and `GTRegion`.
pub record GtSize : Type 0 where
  pub width : ℕ
  pub height : ℕ
  pub depth : ℕ

pub record GtRegion : Type 0 where
  pub origin : Point3D
  pub size : GtSize

-- `Region::to_gt`, whose depth is always 1
abbrev pub to_gt : Region → GtRegion
to_gt region = record {
  origin = record { x = region.origin.x; y = region.origin.y; z = region.origin.z };
  size = record { width = region.size.width; height = region.size.height; depth = 1 };
}

pub record TextureRequest : Type 0 where
  pub stream_ref : ℕ
  pub region : Region
  pub plane : ℕ
  pub slice : ℕ
  pub level : ℕ

-- `TextureRequest::natural`
abbrev pub natural : ℕ → TextureRequest
natural stream_ref = record {
  stream_ref = stream_ref;
  region = zero_region;
  plane = 0;
  slice = 0;
  level = 0;
}

-- `TextureRequest::new`
abbrev pub texture_request : ℕ → Region → ℕ → TextureRequest
texture_request stream_ref region plane = record {
  stream_ref = stream_ref;
  region = region;
  plane = plane;
  slice = 0;
  level = 0;
}

-- `TextureRequest::with_slice_level`
abbrev pub with_slice_level : ℕ → ℕ → TextureRequest → TextureRequest
with_slice_level slice level request = record request { slice = slice; level = level }

-- `DispatchUid` is the number that it wraps.
pub record WireframeRequest : Type 0 where
  pub dispatch_uid : ℕ
  pub solid : Bool
