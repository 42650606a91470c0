-- ===== src/Cksum/Tables/Row7.antt =====
-- Client/cksum_new.cpp: row 7 of `crctab`.
use secure_file_transfer_sys.Base.{ℕ, List, [], ◌∷◌}

unfoldable pub crctab_7 : List ℕ
crctab_7 =
    0x00000000 ∷ 0x5ba1dcca ∷ 0xb743b994 ∷ 0xece2655e ∷ 0x6a466e9f ∷ 0x31e7b255 ∷ 0xdd05d70b
    ∷ 0x86a40bc1 ∷ 0xd48cdd3e ∷ 0x8f2d01f4 ∷ 0x63cf64aa ∷ 0x386eb860 ∷ 0xbecab3a1 ∷ 0xe56b6f6b
    ∷ 0x09890a35 ∷ 0x5228d6ff ∷ 0xadd8a7cb ∷ 0xf6797b01 ∷ 0x1a9b1e5f ∷ 0x413ac295 ∷ 0xc79ec954
    ∷ 0x9c3f159e ∷ 0x70dd70c0 ∷ 0x2b7cac0a ∷ 0x79547af5 ∷ 0x22f5a63f ∷ 0xce17c361 ∷ 0x95b61fab
    ∷ 0x1312146a ∷ 0x48b3c8a0 ∷ 0xa451adfe ∷ 0xfff07134 ∷ 0x5f705221 ∷ 0x04d18eeb ∷ 0xe833ebb5
    ∷ 0xb392377f ∷ 0x35363cbe ∷ 0x6e97e074 ∷ 0x8275852a ∷ 0xd9d459e0 ∷ 0x8bfc8f1f ∷ 0xd05d53d5
    ∷ 0x3cbf368b ∷ 0x671eea41 ∷ 0xe1bae180 ∷ 0xba1b3d4a ∷ 0x56f95814 ∷ 0x0d5884de ∷ 0xf2a8f5ea
    ∷ 0xa9092920 ∷ 0x45eb4c7e ∷ 0x1e4a90b4 ∷ 0x98ee9b75 ∷ 0xc34f47bf ∷ 0x2fad22e1 ∷ 0x740cfe2b
    ∷ 0x262428d4 ∷ 0x7d85f41e ∷ 0x91679140 ∷ 0xcac64d8a ∷ 0x4c62464b ∷ 0x17c39a81 ∷ 0xfb21ffdf
    ∷ 0xa0802315 ∷ 0xbee0a442 ∷ 0xe5417888 ∷ 0x09a31dd6 ∷ 0x5202c11c ∷ 0xd4a6cadd ∷ 0x8f071617
    ∷ 0x63e57349 ∷ 0x3844af83 ∷ 0x6a6c797c ∷ 0x31cda5b6 ∷ 0xdd2fc0e8 ∷ 0x868e1c22 ∷ 0x002a17e3
    ∷ 0x5b8bcb29 ∷ 0xb769ae77 ∷ 0xecc872bd ∷ 0x13380389 ∷ 0x4899df43 ∷ 0xa47bba1d ∷ 0xffda66d7
    ∷ 0x797e6d16 ∷ 0x22dfb1dc ∷ 0xce3dd482 ∷ 0x959c0848 ∷ 0xc7b4deb7 ∷ 0x9c15027d ∷ 0x70f76723
    ∷ 0x2b56bbe9 ∷ 0xadf2b028 ∷ 0xf6536ce2 ∷ 0x1ab109bc ∷ 0x4110d576 ∷ 0xe190f663 ∷ 0xba312aa9
    ∷ 0x56d34ff7 ∷ 0x0d72933d ∷ 0x8bd698fc ∷ 0xd0774436 ∷ 0x3c952168 ∷ 0x6734fda2 ∷ 0x351c2b5d
    ∷ 0x6ebdf797 ∷ 0x825f92c9 ∷ 0xd9fe4e03 ∷ 0x5f5a45c2 ∷ 0x04fb9908 ∷ 0xe819fc56 ∷ 0xb3b8209c
    ∷ 0x4c4851a8 ∷ 0x17e98d62 ∷ 0xfb0be83c ∷ 0xa0aa34f6 ∷ 0x260e3f37 ∷ 0x7dafe3fd ∷ 0x914d86a3
    ∷ 0xcaec5a69 ∷ 0x98c48c96 ∷ 0xc365505c ∷ 0x2f873502 ∷ 0x7426e9c8 ∷ 0xf282e209 ∷ 0xa9233ec3
    ∷ 0x45c15b9d ∷ 0x1e608757 ∷ 0x79005533 ∷ 0x22a189f9 ∷ 0xce43eca7 ∷ 0x95e2306d ∷ 0x13463bac
    ∷ 0x48e7e766 ∷ 0xa4058238 ∷ 0xffa45ef2 ∷ 0xad8c880d ∷ 0xf62d54c7 ∷ 0x1acf3199 ∷ 0x416eed53
    ∷ 0xc7cae692 ∷ 0x9c6b3a58 ∷ 0x70895f06 ∷ 0x2b2883cc ∷ 0xd4d8f2f8 ∷ 0x8f792e32 ∷ 0x639b4b6c
    ∷ 0x383a97a6 ∷ 0xbe9e9c67 ∷ 0xe53f40ad ∷ 0x09dd25f3 ∷ 0x527cf939 ∷ 0x00542fc6 ∷ 0x5bf5f30c
    ∷ 0xb7179652 ∷ 0xecb64a98 ∷ 0x6a124159 ∷ 0x31b39d93 ∷ 0xdd51f8cd ∷ 0x86f02407 ∷ 0x26700712
    ∷ 0x7dd1dbd8 ∷ 0x9133be86 ∷ 0xca92624c ∷ 0x4c36698d ∷ 0x1797b547 ∷ 0xfb75d019 ∷ 0xa0d40cd3
    ∷ 0xf2fcda2c ∷ 0xa95d06e6 ∷ 0x45bf63b8 ∷ 0x1e1ebf72 ∷ 0x98bab4b3 ∷ 0xc31b6879 ∷ 0x2ff90d27
    ∷ 0x7458d1ed ∷ 0x8ba8a0d9 ∷ 0xd0097c13 ∷ 0x3ceb194d ∷ 0x674ac587 ∷ 0xe1eece46 ∷ 0xba4f128c
    ∷ 0x56ad77d2 ∷ 0x0d0cab18 ∷ 0x5f247de7 ∷ 0x0485a12d ∷ 0xe867c473 ∷ 0xb3c618b9 ∷ 0x35621378
    ∷ 0x6ec3cfb2 ∷ 0x8221aaec ∷ 0xd9807626 ∷ 0xc7e0f171 ∷ 0x9c412dbb ∷ 0x70a348e5 ∷ 0x2b02942f
    ∷ 0xada69fee ∷ 0xf6074324 ∷ 0x1ae5267a ∷ 0x4144fab0 ∷ 0x136c2c4f ∷ 0x48cdf085 ∷ 0xa42f95db
    ∷ 0xff8e4911 ∷ 0x792a42d0 ∷ 0x228b9e1a ∷ 0xce69fb44 ∷ 0x95c8278e ∷ 0x6a3856ba ∷ 0x31998a70
    ∷ 0xdd7bef2e ∷ 0x86da33e4 ∷ 0x007e3825 ∷ 0x5bdfe4ef ∷ 0xb73d81b1 ∷ 0xec9c5d7b ∷ 0xbeb48b84
    ∷ 0xe515574e ∷ 0x09f73210 ∷ 0x5256eeda ∷ 0xd4f2e51b ∷ 0x8f5339d1 ∷ 0x63b15c8f ∷ 0x38108045
    ∷ 0x9890a350 ∷ 0xc3317f9a ∷ 0x2fd31ac4 ∷ 0x7472c60e ∷ 0xf2d6cdcf ∷ 0xa9771105 ∷ 0x4595745b
    ∷ 0x1e34a891 ∷ 0x4c1c7e6e ∷ 0x17bda2a4 ∷ 0xfb5fc7fa ∷ 0xa0fe1b30 ∷ 0x265a10f1 ∷ 0x7dfbcc3b
    ∷ 0x9119a965 ∷ 0xcab875af ∷ 0x3548049b ∷ 0x6ee9d851 ∷ 0x820bbd0f ∷ 0xd9aa61c5 ∷ 0x5f0e6a04
    ∷ 0x04afb6ce ∷ 0xe84dd390 ∷ 0xb3ec0f5a ∷ 0xe1c4d9a5 ∷ 0xba65056f ∷ 0x56876031 ∷ 0x0d26bcfb
    ∷ 0x8b82b73a ∷ 0xd0236bf0 ∷ 0x3cc10eae ∷ 0x6760d264 ∷ []
