-- ===== src/Device/Linux/Ioctl/Layout.antt =====
-- device/device_linux_64.go and device_linux_32.go, with in6_addr of device_linux.go: the structures
-- that the ioctls on routes hand to the kernel, as Go lays them out. Go's blank fields are named after
-- the field that they complete.
use Prim.Native.String.{String}
use an_app.Base.{ℕ, List, [], ◌∷◌}
use an_app.Device.Linux.Ioctl.Memory.{Field}

-- uint16 and int16, uint32 and int32, uintptr, unix.RawSockaddrInet4, and in6_addr, which is aligned
-- as bytes in Go.
abbrev u16 : String → Field
u16 name = record { name = name; align = 2; size = 2 }

abbrev u32 : String → Field
u32 name = record { name = name; align = 4; size = 4 }

abbrev word : ℕ → String → Field
word w name = record { name = name; align = w; size = w }

abbrev sockaddr : String → Field
sockaddr name = record { name = name; align = 2; size = 16 }

abbrev pub in6_addr : String → Field
in6_addr name = record { name = name; align = 1; size = 16 }

unfoldable pub rtentry_64 : List Field
rtentry_64 =
    u32 "rt_pad1"
    ∷ u32 "rt_pad1_high"
    ∷ sockaddr "rt_dst"
    ∷ sockaddr "rt_gateway"
    ∷ sockaddr "rt_genmask"
    ∷ u16 "rt_flags"
    ∷ u16 "rt_pad2"
    ∷ u32 "rt_pad2_high"
    ∷ u32 "rt_pad3"
    ∷ u32 "rt_pad3_high"
    ∷ word 8 "rt_pad4"
    ∷ u16 "rt_metric"
    ∷ word 8 "rt_dev"
    ∷ u32 "rt_mtu"
    ∷ u32 "rt_mtu_high"
    ∷ u32 "rt_window"
    ∷ u32 "rt_window_high"
    ∷ u16 "rt_irtt"
    ∷ []

unfoldable pub rtentry_32 : List Field
rtentry_32 =
    u32 "rt_pad1"
    ∷ sockaddr "rt_dst"
    ∷ sockaddr "rt_gateway"
    ∷ sockaddr "rt_genmask"
    ∷ u16 "rt_flags"
    ∷ u16 "rt_pad2"
    ∷ u32 "rt_pad3"
    ∷ word 4 "rt_pad4"
    ∷ u16 "rt_metric"
    ∷ word 4 "rt_dev"
    ∷ u32 "rt_mtu"
    ∷ u32 "rt_window"
    ∷ u16 "rt_irtt"
    ∷ []

unfoldable pub in6_rtmsg_64 : List Field
in6_rtmsg_64 =
    in6_addr "rtmsg_dst"
    ∷ in6_addr "rtmsg_src"
    ∷ in6_addr "rtmsg_gateway"
    ∷ u32 "rtmsg_type"
    ∷ u16 "rtmsg_dst_len"
    ∷ u16 "rtmsg_src_len"
    ∷ u32 "rtmsg_metric"
    ∷ u32 "rtmsg_metric_high"
    ∷ u32 "rtmsg_info"
    ∷ u32 "rtmsg_info_high"
    ∷ u32 "rtmsg_flags"
    ∷ u32 "rtmsg_ifindex"
    ∷ []

unfoldable pub in6_rtmsg_32 : List Field
in6_rtmsg_32 =
    in6_addr "rtmsg_dst"
    ∷ in6_addr "rtmsg_src"
    ∷ in6_addr "rtmsg_gateway"
    ∷ u32 "rtmsg_type"
    ∷ u16 "rtmsg_dst_len"
    ∷ u16 "rtmsg_src_len"
    ∷ u32 "rtmsg_metric"
    ∷ u32 "rtmsg_info"
    ∷ u32 "rtmsg_flags"
    ∷ u32 "rtmsg_ifindex"
    ∷ []
