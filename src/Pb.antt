-- ===== src/Pb.antt =====
-- relay/internal/pb: the wire types shared by every component.
pub mod Enums
pub mod Stage
pub mod RoundTrip
pub mod Message
