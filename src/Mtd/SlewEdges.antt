-- ===== src/Mtd/SlewEdges.antt =====
-- MTD_QTSLEW_BINEDGE_RUN16 of HLT_MTD/mtd_defs.h: the upper edges of the eight ADC bins of each QT channel,
-- sixteen channels for each of the eight QT boards.
use star_hlt_tofmtd.Prelude.{ℕ, List, [], ◌∷◌}

abbrev row : ℕ → ℕ → ℕ → ℕ → ℕ → ℕ → ℕ → ℕ → List ℕ
row a b c d e f g h = a ∷ b ∷ c ∷ d ∷ e ∷ f ∷ g ∷ h ∷ []

unfoldable pub qtslew_binedge_run16 : List (List ℕ)
qtslew_binedge_run16 =
    row 4095 4095 4095 4095 4095 4095 4095 4095
    ∷ row 4095 4095 4095 4095 4095 4095 4095 4095
    ∷ row 518 546 574 622 698 810 986 4095
    ∷ row 514 544 574 624 708 828 1006 4095
    ∷ row 4095 4095 4095 4095 4095 4095 4095 4095
    ∷ row 4095 4095 4095 4095 4095 4095 4095 4095
    ∷ row 590 624 654 704 794 916 1124 4095
    ∷ row 592 628 664 718 812 940 1132 4095
    ∷ row 4095 4095 4095 4095 4095 4095 4095 4095
    ∷ row 4095 4095 4095 4095 4095 4095 4095 4095
    ∷ row 542 572 600 646 726 840 1010 4095
    ∷ row 536 564 590 634 714 824 990 4095
    ∷ row 4095 4095 4095 4095 4095 4095 4095 4095
    ∷ row 4095 4095 4095 4095 4095 4095 4095 4095
    ∷ row 540 570 598 640 720 832 1012 4095
    ∷ row 568 596 622 660 740 856 1044 4095
    ∷ row 4095 4095 4095 4095 4095 4095 4095 4095
    ∷ row 4095 4095 4095 4095 4095 4095 4095 4095
    ∷ row 642 674 702 754 844 972 1178 4095
    ∷ row 620 658 694 742 832 966 1166 4095
    ∷ row 4095 4095 4095 4095 4095 4095 4095 4095
    ∷ row 4095 4095 4095 4095 4095 4095 4095 4095
    ∷ row 652 690 726 790 882 1016 1222 4095
    ∷ row 608 648 686 738 824 954 1162 4095
    ∷ row 4095 4095 4095 4095 4095 4095 4095 4095
    ∷ row 4095 4095 4095 4095 4095 4095 4095 4095
    ∷ row 638 672 704 754 842 966 1168 4095
    ∷ row 644 680 722 784 880 1006 1190 4095
    ∷ row 4095 4095 4095 4095 4095 4095 4095 4095
    ∷ row 4095 4095 4095 4095 4095 4095 4095 4095
    ∷ row 632 668 698 750 838 960 1174 4095
    ∷ row 640 680 718 774 870 1006 1216 4095
    ∷ row 4095 4095 4095 4095 4095 4095 4095 4095
    ∷ row 4095 4095 4095 4095 4095 4095 4095 4095
    ∷ row 544 580 610 654 730 848 1038 4095
    ∷ row 544 582 616 670 758 886 1066 4095
    ∷ row 4095 4095 4095 4095 4095 4095 4095 4095
    ∷ row 4095 4095 4095 4095 4095 4095 4095 4095
    ∷ row 608 640 668 714 800 924 1142 4095
    ∷ row 600 636 670 724 824 954 1156 4095
    ∷ row 4095 4095 4095 4095 4095 4095 4095 4095
    ∷ row 4095 4095 4095 4095 4095 4095 4095 4095
    ∷ row 592 626 658 702 786 912 1120 4095
    ∷ row 618 656 690 734 818 946 1142 4095
    ∷ row 4095 4095 4095 4095 4095 4095 4095 4095
    ∷ row 4095 4095 4095 4095 4095 4095 4095 4095
    ∷ row 614 646 674 726 818 952 1172 4095
    ∷ row 606 644 682 738 834 962 1178 4095
    ∷ row 4095 4095 4095 4095 4095 4095 4095 4095
    ∷ row 4095 4095 4095 4095 4095 4095 4095 4095
    ∷ row 618 654 688 736 822 956 1194 4095
    ∷ row 620 654 686 742 842 990 1212 4095
    ∷ row 4095 4095 4095 4095 4095 4095 4095 4095
    ∷ row 4095 4095 4095 4095 4095 4095 4095 4095
    ∷ row 4095 4095 4095 4095 4095 4095 4095 4095
    ∷ row 4095 4095 4095 4095 4095 4095 4095 4095
    ∷ row 4095 4095 4095 4095 4095 4095 4095 4095
    ∷ row 4095 4095 4095 4095 4095 4095 4095 4095
    ∷ row 646 678 706 754 840 972 1196 4095
    ∷ row 624 662 700 758 856 990 1182 4095
    ∷ row 4095 4095 4095 4095 4095 4095 4095 4095
    ∷ row 4095 4095 4095 4095 4095 4095 4095 4095
    ∷ row 584 620 656 716 806 934 1134 4095
    ∷ row 604 642 678 732 824 956 1164 4095
    ∷ row 4095 4095 4095 4095 4095 4095 4095 4095
    ∷ row 4095 4095 4095 4095 4095 4095 4095 4095
    ∷ row 564 594 618 654 720 828 1020 4095
    ∷ row 562 590 616 646 718 832 1032 4095
    ∷ row 4095 4095 4095 4095 4095 4095 4095 4095
    ∷ row 4095 4095 4095 4095 4095 4095 4095 4095
    ∷ row 596 628 660 716 808 932 1132 4095
    ∷ row 578 614 648 700 792 920 1122 4095
    ∷ row 4095 4095 4095 4095 4095 4095 4095 4095
    ∷ row 4095 4095 4095 4095 4095 4095 4095 4095
    ∷ row 590 622 652 688 756 870 1068 4095
    ∷ row 612 642 668 702 772 888 1080 4095
    ∷ row 4095 4095 4095 4095 4095 4095 4095 4095
    ∷ row 4095 4095 4095 4095 4095 4095 4095 4095
    ∷ row 606 638 664 712 804 934 1148 4095
    ∷ row 616 652 682 730 828 956 1166 4095
    ∷ row 4095 4095 4095 4095 4095 4095 4095 4095
    ∷ row 4095 4095 4095 4095 4095 4095 4095 4095
    ∷ row 594 626 660 704 772 902 1116 4095
    ∷ row 566 594 618 660 740 860 1058 4095
    ∷ row 4095 4095 4095 4095 4095 4095 4095 4095
    ∷ row 4095 4095 4095 4095 4095 4095 4095 4095
    ∷ row 594 630 660 706 794 924 1138 4095
    ∷ row 636 670 700 750 844 986 1218 4095
    ∷ row 4095 4095 4095 4095 4095 4095 4095 4095
    ∷ row 4095 4095 4095 4095 4095 4095 4095 4095
    ∷ row 4095 4095 4095 4095 4095 4095 4095 4095
    ∷ row 4095 4095 4095 4095 4095 4095 4095 4095
    ∷ row 4095 4095 4095 4095 4095 4095 4095 4095
    ∷ row 4095 4095 4095 4095 4095 4095 4095 4095
    ∷ row 4095 4095 4095 4095 4095 4095 4095 4095
    ∷ row 4095 4095 4095 4095 4095 4095 4095 4095
    ∷ row 4095 4095 4095 4095 4095 4095 4095 4095
    ∷ row 4095 4095 4095 4095 4095 4095 4095 4095
    ∷ row 628 660 690 740 836 972 1194 4095
    ∷ row 654 686 712 758 854 990 1208 4095
    ∷ row 4095 4095 4095 4095 4095 4095 4095 4095
    ∷ row 4095 4095 4095 4095 4095 4095 4095 4095
    ∷ row 572 604 640 688 768 892 1116 4095
    ∷ row 598 632 662 706 796 932 1158 4095
    ∷ row 4095 4095 4095 4095 4095 4095 4095 4095
    ∷ row 4095 4095 4095 4095 4095 4095 4095 4095
    ∷ row 554 588 618 662 746 878 1108 4095
    ∷ row 560 590 618 660 748 876 1100 4095
    ∷ row 4095 4095 4095 4095 4095 4095 4095 4095
    ∷ row 4095 4095 4095 4095 4095 4095 4095 4095
    ∷ row 674 708 742 804 906 1058 1372 4095
    ∷ row 642 678 710 760 856 990 1240 4095
    ∷ row 4095 4095 4095 4095 4095 4095 4095 4095
    ∷ row 4095 4095 4095 4095 4095 4095 4095 4095
    ∷ row 594 628 658 714 814 952 1164 4095
    ∷ row 574 610 640 692 788 924 1134 4095
    ∷ row 4095 4095 4095 4095 4095 4095 4095 4095
    ∷ row 4095 4095 4095 4095 4095 4095 4095 4095
    ∷ row 4095 4095 4095 4095 4095 4095 4095 4095
    ∷ row 4095 4095 4095 4095 4095 4095 4095 4095
    ∷ row 4095 4095 4095 4095 4095 4095 4095 4095
    ∷ row 4095 4095 4095 4095 4095 4095 4095 4095
    ∷ row 644 684 718 764 848 980 1222 4095
    ∷ row 614 650 682 730 822 958 1176 4095
    ∷ row 4095 4095 4095 4095 4095 4095 4095 4095
    ∷ row 4095 4095 4095 4095 4095 4095 4095 4095
    ∷ row 652 688 716 752 834 976 1224 4095
    ∷ row 664 702 734 782 878 1022 1264 4095
    ∷ []
