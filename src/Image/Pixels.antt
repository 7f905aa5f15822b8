-- ===== src/Image/Pixels.antt =====
-- `pixels` of image.rs: the whole image as one slice of elements.
use gputools_replay.Prelude.{ℕ, ◌*◌, ◌%◌, ◌≡◌, List, ok, length}
use gputools_replay.Bytes.{Pod, IsPod, payload_addr}
use gputools_replay.Image.{Image, packed_bytes, contents}
use gputools_replay.Image.Bounds.{IsWire}
use gputools_replay.Image.Packed.{map_ok}

module _ {P : Type 0} (pod : Pod P) (v : IsPod pod) (img : Image) (bs : List ℕ)
    (w : IsWire img bs) where
  -- The elements, in order: `width * height` of them, whose bytes are what `packed_bytes` returns.
  pub record IsPixels (ps : List P) : Type 0 where
    pub packed : map_ok contents (packed_bytes img) ≡ ok (pod.to_bytes ps)
    pub count : length ps ≡ img.height * img.width
    pub aligned : payload_addr img.payload % pod.align_of ≡ 0
